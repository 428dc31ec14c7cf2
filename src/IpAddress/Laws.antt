-- ===== src/IpAddress/Laws.antt =====
-- The class IPv4Address of dhcp/src/IpAddress.cpp: its integer value, order and steps.
use klevret.Prelude.{ℕ, ◌+◌, ◌-◌, ◌*◌, ◌/◌, ◌%◌, ◌^◌, ◌<◌, ◌≡◌, ◌↔◌, ◌∙◌, arith}
use klevret.Prelude.{true, false}
use klevret.Endians.{Endian, to_le}
use klevret.Endians.Laws.{from_be, network_array_to_host_endian-from_be}
use klevret.Endians.Laws.{host_to_network_endian_array-to_be}
use klevret.IpAddress.{Ipv4Address, IsValid, data_of, of_uint32_t, to_uint32_t, eq_ip}
use klevret.Prelude.Order.{StrictOrder, same}
use klevret.IpAddress.{increment, decrement, less_ip}

-- The integer value weighs the first octet most, on every host.
pub to_uint32_t-value :
    (native : Endian) (a : Ipv4Address)
    → IsValid a
    → to_uint32_t native a ≡ a.octet_0 * 2 ^ 24 + a.octet_1 * 2 ^ 16 + a.octet_2 * 2 ^ 8 + a.octet_3
unfolding to_uint32_t from_be
to_uint32_t-value native a v =
    rw (network_array_to_host_endian-from_be native (data_of a) (omega arith)) (omega arith)

pub of_uint32_t-octets :
    (native : Endian) (v : ℕ)
    → of_uint32_t native v ≡ record {
      octet_0 = v / 2 ^ 24 % 256;
      octet_1 = v / 2 ^ 16 % 256;
      octet_2 = v / 2 ^ 8 % 256;
      octet_3 = v % 256;
    }
unfolding of_uint32_t to_le
of_uint32_t-octets native v = rw (host_to_network_endian_array-to_be native 4 v) (ground arith)

pub of_uint32_t-IsValid : (native : Endian) (v : ℕ) → IsValid (of_uint32_t native v)
of_uint32_t-IsValid native v = rw (of_uint32_t-octets native v) (omega arith)

-- A valid address survives the way through its integer.
pub of_uint32_t-to_uint32_t :
    (native : Endian) (a : Ipv4Address) → IsValid a → of_uint32_t native (to_uint32_t native a) ≡ a
of_uint32_t-to_uint32_t native a v =
    rw (of_uint32_t-octets, to_uint32_t-value native a v) (ground arith)

-- An integer below 2 ^ 32 survives the way through its address.
pub to_uint32_t-of_uint32_t :
    (native : Endian) (v : ℕ) → v < 2 ^ 32 → to_uint32_t native (of_uint32_t native v) ≡ v
to_uint32_t-of_uint32_t native v h =
    to_uint32_t-value native (of_uint32_t native v) (of_uint32_t-IsValid native v)
    ∙ rw (of_uint32_t-octets native v) (omega arith)

pub to_uint32_t-lt : (native : Endian) (a : Ipv4Address) → IsValid a → to_uint32_t native a < 2 ^ 32
to_uint32_t-lt native a v = omega (arith, to_uint32_t-value native a v)

-- `operator<` is the order of the integer values.
pub less_ip_iff :
    (native : Endian) (a b : Ipv4Address)
    → (less_ip native a b ≡ true) ↔ (to_uint32_t native a < to_uint32_t native b)
unfolding less_ip
less_ip_iff native a b = ground arith

-- `operator==` says exactly that the addresses are equal.
pub eq_ip_iff : (a b : Ipv4Address) → (eq_ip a b ≡ true) ↔ (a ≡ b)
eq_ip_iff a b = (λ h. ground arith, λ e. ground arith)

-- An increment gives the next address, and after 255.255.255.255 it gives 0.0.0.0.
pub increment-value :
    (native : Endian) (a : Ipv4Address)
    → to_uint32_t native (increment native a) ≡ (to_uint32_t native a + 1) % 2 ^ 32
unfolding increment
increment-value native a = to_uint32_t-of_uint32_t native _ (omega arith)

-- On a valid address a decrement undoes an increment, and an increment a decrement.
pub decrement-increment :
    (native : Endian) (a : Ipv4Address)
    → IsValid a
    → (decrement native (increment native a) ≡ a) × (increment native (decrement native a) ≡ a)
unfolding increment decrement
decrement-increment native a v =
    let lt = to_uint32_t-lt native a v in
    let n = to_uint32_t native a in
    let up : to_uint32_t native (of_uint32_t native ((n + 1) % 2 ^ 32)) ≡ (n + 1) % 2 ^ 32 =
      to_uint32_t-of_uint32_t native _ (omega arith) in
    let down : to_uint32_t native (of_uint32_t native ((n + 2 ^ 32 - 1) % 2 ^ 32))
        ≡ (n + 2 ^ 32 - 1) % 2 ^ 32 =
      to_uint32_t-of_uint32_t native _ (omega arith) in
    let back : ((n + 1) % 2 ^ 32 + 2 ^ 32 - 1) % 2 ^ 32 ≡ n = omega arith in
    let forth : ((n + 2 ^ 32 - 1) % 2 ^ 32 + 1) % 2 ^ 32 ≡ n = omega arith in
    (
      rw (up, back) (of_uint32_t-to_uint32_t native a v),
      rw (down, forth) (of_uint32_t-to_uint32_t native a v),
    )

pub less_ip_irreflexive : (native : Endian) (a : Ipv4Address) → less_ip native a a ≡ false
unfolding less_ip
less_ip_irreflexive native a = ground arith

pub less_ip_incomparable :
    (native : Endian) (a b c : Ipv4Address)
    → less_ip native a b ≡ false
    → less_ip native b a ≡ false
    → less_ip native b c ≡ false
    → less_ip native c b ≡ false
    → less_ip native a c ≡ false
unfolding less_ip
less_ip_incomparable native a b c p q r s = ground arith

-- The order of the sets and maps that are keyed by IP addresses.
abbrev pub ip_order : Endian → StrictOrder Ipv4Address
ip_order native = record {
  less = less_ip native;
  irreflexive = less_ip_irreflexive native;
  incomparable_trans = less_ip_incomparable native;
}

-- Keys of these containers are one exactly when their integer values are.
pub same_ip_iff :
    (native : Endian) (a b : Ipv4Address)
    → (same (ip_order native) a b ≡ true) ↔ (to_uint32_t native a ≡ to_uint32_t native b)
unfolding same less_ip
same_ip_iff native a b = (λ h. ground arith, λ e. ground arith)
