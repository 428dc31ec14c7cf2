-- ===== src/AddressPool.antt =====
-- dhcp/src/AddressPool.cpp and AddressPool.hpp: the addresses that a DHCP server gives out.
-- The two sets are lists in the order of `operator<`, the six maps association lists. `to_ptree`
-- and its inverses are stubs in the source.
pub mod Invariant
pub mod Methods
pub mod Selection
pub mod Reachable
pub mod Exclusion
pub mod Together
pub mod Careful
pub mod Construction
use klevret.Prelude.{ℕ, zero, suc, ◌==◌, leb, not, ◌&&◌, ◌||◌, if◌then◌else◌, Bool, true, false}
use klevret.Prelude.{List, [], ◌∷◌, Option, some, none, Result, ok, throw, running, throw_if}
use klevret.Prelude.{not_in_pool, already_reserved, already_taken, not_reserved, no_free_address}
use klevret.Prelude.{◌>>=◌, ◌>>◌}
use klevret.Prelude.Order.{StrictOrder}
use klevret.Prelude.Map
use klevret.Prelude.SortedSet.{insert, contains, std_find, erase_found}
use klevret.Endians.{Endian}
use klevret.IpAddress.{Ipv4Address, to_uint32_t, increment, less_ip, eq_ip}
use klevret.IpAddress.Laws.{ip_order}
use klevret.HardwareAddress.{MacAddress}
use klevret.HardwareAddress.Laws.{mac_order}
use klevret.DhcpOption.{DhcpOption}

pub record Ipv4AddressRange : Type 0 where
  pub start : Ipv4Address
  pub end : Ipv4Address

pub record AddressPool : Type 0 where
  pub addresses_range : Ipv4AddressRange
  pub included_addresses : List Ipv4Address
  pub excluded_addresses : List Ipv4Address
  pub reserved_ip_addresses : List (Ipv4Address × MacAddress)
  pub reserved_mac_addresses : List (MacAddress × Ipv4Address)
  pub taken_ip_addresses : List (Ipv4Address × MacAddress)
  pub taken_mac_addresses : List (MacAddress × Ipv4Address)
  pub cache : List (MacAddress × Ipv4Address)
  pub options : List (ℕ × DhcpOption)

abbrev pub is_some {ℓ} : {A : Type ℓ} → Option A → Bool
is_some none = false
is_some (some a) = true

-- `_cache.erase` of the first entry whose address is `ip`.
unfoldable pub erase_cached :
    Ipv4Address → List (MacAddress × Ipv4Address) → List (MacAddress × Ipv4Address)
erase_cached ip [] = []
erase_cached ip ((mac, a) ∷ entries) =
    if eq_ip a ip then entries else (mac, a) ∷ erase_cached ip entries

-- `_options[code] = option` and `_options.erase(code)`
unfoldable pub assign_option : ℕ → DhcpOption → List (ℕ × DhcpOption) → List (ℕ × DhcpOption)
assign_option code o [] = (code, o) ∷ []
assign_option code o ((c, p) ∷ m) =
    if c == code then (code, o) ∷ m else (c, p) ∷ assign_option code o m

unfoldable pub erase_option : ℕ → List (ℕ × DhcpOption) → List (ℕ × DhcpOption)
erase_option code [] = []
erase_option code ((c, p) ∷ m) =
    if c == code then erase_option code m else (c, p) ∷ erase_option code m

module _ (native : Endian) where
  unfoldable pub range_contains : Ipv4AddressRange → Ipv4Address → Bool
  range_contains r ip =
      leb (to_uint32_t native r.start) (to_uint32_t native ip)
      && leb (to_uint32_t native ip) (to_uint32_t native r.end)

  -- The constructor's loop: `running` says that `fuel` rounds did not end it.
  unfoldable pub fill : ℕ → Ipv4Address → Ipv4Address → List Ipv4Address → Result (List Ipv4Address)
  fill zero ip end_ip included = running
  fill (suc fuel) ip end_ip included =
      elim (leb (to_uint32_t native ip) (to_uint32_t native end_ip)) [
        | true ↦ fill fuel (increment native ip) end_ip (insert (ip_order native) ip included)
        | false ↦ ok included
      ]

  unfoldable pub make_pool : ℕ → Ipv4Address → Ipv4Address → Result AddressPool
  make_pool fuel start_ip end_ip = do
    included ← fill fuel start_ip end_ip []
    ok (record {
      addresses_range = record { start = start_ip; end = end_ip };
      included_addresses = included;
      excluded_addresses = [];
      reserved_ip_addresses = [];
      reserved_mac_addresses = [];
      taken_ip_addresses = [];
      taken_mac_addresses = [];
      cache = [];
      options = [];
    })

  abbrev pub is_ip_taken : AddressPool → Ipv4Address → Bool
  is_ip_taken p ip = is_some (Map.find (ip_order native) ip p.taken_ip_addresses)

  abbrev pub is_ip_reserved : AddressPool → Ipv4Address → Bool
  is_ip_reserved p ip = is_some (Map.find (ip_order native) ip p.reserved_ip_addresses)

  abbrev pub is_address_included : AddressPool → Ipv4Address → Bool
  is_address_included p ip = contains (ip_order native) ip p.included_addresses

  abbrev pub is_address_excluded : AddressPool → Ipv4Address → Bool
  is_address_excluded p ip = contains (ip_order native) ip p.excluded_addresses

  unfoldable pub reserve_ip : AddressPool → Ipv4Address → MacAddress → Result AddressPool
  reserve_ip p ip mac = do
    throw_if (not (is_address_included p ip)) not_in_pool
    throw_if (is_ip_reserved p ip) already_reserved
    throw_if (is_ip_taken p ip) already_taken
    ok (record p {
      reserved_ip_addresses = Map.assign (ip_order native) ip mac p.reserved_ip_addresses;
      reserved_mac_addresses = Map.assign mac_order mac ip p.reserved_mac_addresses;
    })

  -- `_reserved_ip_addresses[ip]` is there after the test.
  unfoldable pub unreserve_ip : AddressPool → Ipv4Address → Result AddressPool
  unreserve_ip p ip = elim (Map.find (ip_order native) ip p.reserved_ip_addresses) [
    | none ↦ throw not_reserved
    | some mac ↦ ok (record p {
      reserved_mac_addresses = Map.erase mac_order mac p.reserved_mac_addresses;
      reserved_ip_addresses = Map.erase (ip_order native) ip p.reserved_ip_addresses;
    })
  ]

  -- The body is empty in the source.
  abbrev pub release_address : AddressPool → Ipv4Address → AddressPool
  release_address p ip = p

  unfoldable pub exclude_ip : AddressPool → Ipv4Address → Result AddressPool
  exclude_ip p ip = if not (std_find eq_ip ip p.included_addresses) then ok p else (do
    let p1 = record p { excluded_addresses = insert (ip_order native) ip p.excluded_addresses }
    p2 ← if is_ip_reserved p1 ip then unreserve_ip p1 ip else ok p1
    let p3 = if is_ip_taken p2 ip then release_address p2 ip else p2
    ok (record p3 {
      cache = erase_cached ip p3.cache;
      included_addresses = erase_found eq_ip ip p3.included_addresses;
    }))

  -- `while (current != ip_end)`, then the last address.
  unfoldable pub exclude_ip_range : ℕ → AddressPool → Ipv4Address → Ipv4Address → Result AddressPool
  exclude_ip_range zero p current ip_end = running
  exclude_ip_range (suc fuel) p current ip_end = elim (eq_ip current ip_end) [
    | true ↦ exclude_ip p ip_end
    | false ↦
        exclude_ip p current >>= λ p'. exclude_ip_range fuel p' (increment native current) ip_end
  ]

  -- `_taken_mac_addresses[mac] = ip; _taken_ip_addresses[ip] = mac;`
  abbrev pub take_ip : AddressPool → MacAddress → Ipv4Address → AddressPool
  take_ip p mac ip = record p {
    taken_mac_addresses = Map.assign mac_order mac ip p.taken_mac_addresses;
    taken_ip_addresses = Map.assign (ip_order native) ip mac p.taken_ip_addresses;
  }

  -- The loop over the included addresses that are left.
  unfoldable pub first_free :
      AddressPool → MacAddress → List Ipv4Address → Result (Ipv4Address × AddressPool)
  first_free p mac [] = throw no_free_address
  first_free p mac (ip ∷ ips) =
      if is_ip_reserved p ip || is_ip_taken p ip
      then first_free p mac ips
      else ok (ip, take_ip p mac ip)

  unfoldable pub get_address : AddressPool → MacAddress → Result (Ipv4Address × AddressPool)
  get_address p mac = elim (Map.find mac_order mac p.reserved_mac_addresses) [
    | some ip ↦ ok (ip, take_ip p mac ip)
    | none ↦ elim (Map.find mac_order mac p.taken_mac_addresses) [
      | some ip ↦ ok (ip, p)
      | none ↦ elim (Map.find mac_order mac p.cache) [
        | none ↦ first_free p mac p.included_addresses
        | some ip ↦
            if not (is_some (Map.find mac_order mac p.taken_mac_addresses))
            then ok (ip, take_ip p mac ip)
            else first_free p mac p.included_addresses
      ]
    ]
  ]

abbrev pub set_option : AddressPool → DhcpOption → AddressPool
set_option p o = record p { options = assign_option o.description.code o p.options }

abbrev pub remove_option : AddressPool → ℕ → AddressPool
remove_option p n = record p { options = erase_option n p.options }
