-- ===== src/Tests/Pools.antt =====
-- dhcp/src/AddressPool.cpp on a pool of two addresses.
use klevret.Prelude.{◌≡◌, ◌↔◌, refl, arith, true, [], ◌∷◌, some, none, ok, running}
use klevret.Prelude.{throw, All, no_free_address}
use klevret.Prelude.Order.{same}
use klevret.Prelude.Map.{find, assign}
use klevret.Prelude.SortedSet.{insert}
use klevret.Endians.{little, from_le, to_le, network_array_to_host_endian}
use klevret.Endians.{host_to_network_endian_array}
use klevret.IpAddress.{Ipv4Address, to_uint32_t, of_uint32_t, increment, less_ip}
use klevret.IpAddress.Laws.{ip_order}
use klevret.HardwareAddress.{less_mac, less_from}
use klevret.AddressPool.{AddressPool, make_pool, fill, get_address, first_free}
use klevret.AddressPool.{is_address_included, range_contains}
use klevret.AddressPool.Invariant.{IsConsistent, held_by, reserved_for}
use klevret.AddressPool.Selection.{IsFirstFree, is_unavailable}
use klevret.AddressPool.Selection.{get_address-IsFirstFree, get_address_exhausted}
use klevret.AddressPool.Reachable.{Reach, Step, Reach-IsConsistent, Reach-exclusive}
use klevret.AddressPool.Construction.{make_pool_included, make_pool_endless}
use klevret.Tests.{ip, mac}
use klevret.AddressPool.Together.{IsTogether}
use klevret.AddressPool.Careful.{Reach-IsTogether}
use klevret.AddressPool.{reserve_ip, unreserve_ip}
use klevret.Prelude.Map.{erase}
use klevret.Prelude.SortedSet.{contains}

abbrev pub new_pool : AddressPool
new_pool = record {
  addresses_range = record { start = ip 1; end = ip 2 };
  included_addresses = ip 1 ∷ ip 2 ∷ [];
  excluded_addresses = [];
  reserved_ip_addresses = [];
  reserved_mac_addresses = [];
  taken_ip_addresses = [];
  taken_mac_addresses = [];
  cache = [];
  options = [];
}

-- After one client has been given an address, and after two.
abbrev pub pool_with_one : AddressPool
pool_with_one = record new_pool {
  taken_ip_addresses = (ip 1, mac 1) ∷ [];
  taken_mac_addresses = (mac 1, ip 1) ∷ [];
}

abbrev pool_with_two : AddressPool
pool_with_two = record new_pool {
  taken_ip_addresses = (ip 1, mac 1) ∷ (ip 2, mac 2) ∷ [];
  taken_mac_addresses = (mac 1, ip 1) ∷ (mac 2, ip 2) ∷ [];
}

pub new_pool_made : make_pool little 3 (ip 1) (ip 2) ≡ ok new_pool
unfolding make_pool fill insert increment of_uint32_t to_uint32_t less_ip
    network_array_to_host_endian host_to_network_endian_array from_le to_le
new_pool_made = refl

pub get_1 : get_address little new_pool (mac 1) ≡ ok (ip 1, pool_with_one)
unfolding get_address first_free find assign
get_1 = refl

get_2 : get_address little pool_with_one (mac 2) ≡ ok (ip 2, pool_with_two)
unfolding get_address first_free find assign same less_mac less_from to_uint32_t less_ip
    network_array_to_host_endian from_le to_le
get_2 = refl

pub Reach-new : Reach little new_pool
Reach-new = Reach.made 3 (ip 1) (ip 2) new_pool_made

Reach-two : Reach little pool_with_two
Reach-two =
    Reach.next (Reach.next Reach-new (Step.get (mac 1) (ip 1) get_1))
      (Step.get (mac 2) (ip 2) get_2)

new-IsConsistent : IsConsistent little new_pool
new-IsConsistent = Reach-IsConsistent little Reach-new

one-IsConsistent : IsConsistent little pool_with_one
one-IsConsistent = Reach-IsConsistent little (Reach.next Reach-new (Step.get (mac 1) (ip 1) get_1))

two-IsConsistent : IsConsistent little pool_with_two
two-IsConsistent = Reach-IsConsistent little Reach-two

held_2 : held_by pool_with_two (mac 2) ≡ some (ip 2)
unfolding find same less_mac less_from
held_2 = refl

same_2 : same (ip_order little) (ip 2) (ip 2) ≡ true
unfolding same less_ip to_uint32_t network_array_to_host_endian from_le to_le
same_2 = refl

unknown : (held_by new_pool (mac 1) ≡ none) × (reserved_for new_pool (mac 1) ≡ none)
unfolding find
unknown = (refl, refl)

unknown_3 : (held_by pool_with_two (mac 3) ≡ none) × (reserved_for pool_with_two (mac 3) ≡ none)
unfolding find same less_mac less_from
unknown_3 = (refl, refl)

abbrev last_ip : Ipv4Address
last_ip = record { octet_0 = 255; octet_1 = 255; octet_2 = 255; octet_3 = 255 }

last_value : to_uint32_t little last_ip ≡ 4294967295
unfolding to_uint32_t network_array_to_host_endian from_le to_le
last_value = refl

bounds : (to_uint32_t little (ip 2) ≡ 167772162) × (to_uint32_t little (ip 1) ≡ 167772161)
unfolding to_uint32_t network_array_to_host_endian from_le to_le
bounds = (refl, refl)

Reach-exclusive_example : mac 2 ≡ mac 2
Reach-exclusive_example =
    Reach-exclusive little pool_with_two (mac 2) (mac 2) (ip 2) (ip 2) Reach-two held_2 held_2
      same_2

-- An address is reserved for a client, and the reservation is taken back.
abbrev with_reservation : AddressPool
with_reservation = record new_pool {
  reserved_ip_addresses = (ip 2, mac 1) ∷ [];
  reserved_mac_addresses = (mac 1, ip 2) ∷ [];
}

reserve_1 : reserve_ip little new_pool (ip 2) (mac 1) ≡ ok with_reservation
unfolding reserve_ip find assign contains same less_ip to_uint32_t less_mac less_from
    network_array_to_host_endian from_le to_le
reserve_1 = refl

unreserve_1 : unreserve_ip little with_reservation (ip 2) ≡ ok new_pool
unfolding unreserve_ip find erase same less_ip to_uint32_t less_mac less_from
    network_array_to_host_endian from_le to_le
unreserve_1 = refl

Reach-IsTogether_example : IsTogether little pool_with_one
unfolding Reach-new
Reach-IsTogether_example =
    Reach-IsTogether little
      (Reach.next
        (Reach.next (Reach.next Reach-new (Step.reserve (ip 2) (mac 1) reserve_1))
          (Step.unreserve (ip 2) unreserve_1))
        (Step.get (mac 1) (ip 1) get_1))
      (((tt, (unknown.1, unknown.0)), tt), tt)

get_address-IsFirstFree_example : IsFirstFree little new_pool (ip 1 ∷ ip 2 ∷ []) (ip 1)
get_address-IsFirstFree_example =
    get_address-IsFirstFree little new_pool (mac 1) (ip 1) pool_with_one new-IsConsistent unknown.1
      unknown.0 get_1

get_address_exhausted_example :
    (get_address little pool_with_two (mac 3) ≡ throw no_free_address)
    ↔ All (λ a. is_unavailable little pool_with_two a ≡ true) (ip 1 ∷ ip 2 ∷ [])
get_address_exhausted_example =
    get_address_exhausted little pool_with_two (mac 3) two-IsConsistent unknown_3.1 unknown_3.0

make_pool_included_example :
    (p : AddressPool) × (make_pool little 3 (ip 1) (ip 2) ≡ ok p)
    × (is_address_included little p (ip 2) ≡ range_contains little p.addresses_range (ip 2))
make_pool_included_example =
    make_pool_included little 2 (ip 1) (ip 2) (ip 2) (omega (arith, bounds.0))
      (omega (arith, bounds.0, bounds.1))

make_pool_endless_example : make_pool little 100 (ip 1) last_ip ≡ running
make_pool_endless_example =
    make_pool_endless little 100 (ip 1) last_ip
      (record {
        byte_0 = omega arith;
        byte_1 = omega arith;
        byte_2 = omega arith;
        byte_3 = omega arith;
      })
      last_value
