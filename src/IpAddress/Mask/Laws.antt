-- ===== src/IpAddress/Mask/Laws.antt =====
-- The class IPv4SubnetMask of dhcp/src/IpAddress.cpp: prefixes, and the constructor from a text.
use klevret.Prelude.{ℕ, zero, suc, ◌-◌, ◌^◌, ◌≤◌, ◌<◌, ◌≡◌, refl, ap, arith}
use klevret.Prelude.{
  Bool, true, false, if◌then◌else◌, Bool-cases, inl, inr, ◌+◌, List, ◌==◌, ==_iff, ok, ◌>>=◌,
}
use klevret.Prelude.{pos, min}
use klevret.Endians.{Endian, to_le}
use klevret.Endians.Laws.{host_to_network_endian_array-to_be}
use klevret.IpAddress.Mask.{Ipv4SubnetMask, of_uint32_t, of_string, from_prefix}
use klevret.IpAddress.Mask.{prefix_loop, to_prefix}

-- A test of every number from `start` on, `count` of them.
tests : (ℕ → Bool) → ℕ → ℕ → Bool
tests check start zero = true
tests check start (suc count) = if check start then tests check (start + 1) count else false

tested :
    (check : ℕ → Bool) (start count k : ℕ)
    → tests check start count ≡ true
    → start ≤ k
    → k < start + count
    → check k ≡ true
unfolding tests
tested check start zero k passed from below = absurd (omega arith)
tested check start (suc count) k passed from below =
    let rest = tested check (start + 1) count k in
    elim (Bool-cases (k == start)) [
      | inl here ↦ rw ((==_iff k start).0 here) (ground arith)
      | inr later ↦ ground (arith, rest)
    ]

prefix_table : tests (λ n. prefix_loop n 0 128 == 256 - 2 ^ (8 - n)) 0 33 ≡ true
unfolding tests prefix_loop
prefix_table = refl

prefix_loop-value : (n : ℕ) → n ≤ 32 → prefix_loop n 0 128 ≡ 256 - 2 ^ (8 - n)
prefix_loop-value n h = (==_iff _ _).0 (tested _ 0 33 n prefix_table (omega arith) (omega arith))

abbrev last_octet : ℕ → Ipv4SubnetMask
last_octet v = record { mask_0 = 0; mask_1 = 0; mask_2 = 0; mask_3 = v }

of_uint32_t_small : (native : Endian) (v : ℕ) → v < 256 → of_uint32_t native v ≡ last_octet v
unfolding of_uint32_t to_le
of_uint32_t_small native v h = rw (host_to_network_endian_array-to_be native 4 v) (ground arith)

-- For a prefix of at most 32 the mask's first three octets are 0, and the last holds the first 8
-- bits of the prefix at most.
pub from_prefix-octets :
    (native : Endian) (n : ℕ)
    → n ≤ 32
    → from_prefix native (pos n) ≡ ok (last_octet (256 - 2 ^ (8 - n)))
unfolding from_prefix
from_prefix-octets native n h =
    let small : 256 - 2 ^ (8 - n) < 256 = omega (arith, prefix_loop-value n h, positive (8 - n)) in
    rw (prefix_loop-value n h, of_uint32_t_small native _ small) (ground arith)
  where
    positive : (k : ℕ) → 0 < 2 ^ k
    positive zero = omega arith
    positive (suc k) = omega (arith, positive k)

to_prefix_table : tests (λ n. to_prefix (last_octet (256 - 2 ^ (8 - n))) == min n 8) 0 33 ≡ true
unfolding tests to_prefix
to_prefix_table = refl

-- `to_prefix` after `from_prefix` gives the prefix back only up to 8: above, it gives 8.
pub to_prefix-from_prefix :
    (native : Endian) (n : ℕ)
    → n ≤ 32
    → (from_prefix native (pos n) >>= λ m. ok (to_prefix m)) ≡ ok (min n 8)
to_prefix-from_prefix native n h =
    rw (from_prefix-octets native n h)
      (ap ok ((==_iff _ _).0 (tested _ 0 33 n to_prefix_table (omega arith) (omega arith))))

-- A mask read from a text holds whatever its memory held before: the text is checked and not stored.
pub of_string-memory :
    (memory : Ipv4SubnetMask) (mask : List ℕ) (m : Ipv4SubnetMask)
    → of_string memory mask ≡ ok m
    → m ≡ memory
unfolding of_string
of_string-memory memory mask m h = ground arith
