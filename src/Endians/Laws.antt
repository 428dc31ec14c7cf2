-- ===== src/Endians/Laws.antt =====
-- What the conversions of dhcp/src/endians.hpp compute, on hosts of either byte order.
use klevret.Prelude.{
  ℕ, zero, suc, ◌+◌, ◌*◌, ◌/◌, ◌%◌, ◌^◌, ◌≤◌, ◌<◌, ◌≡◌, refl, sym, ap, ◌∙◌, subst, arith,
}
use klevret.Prelude.{List, [], ◌∷◌, ◌++◌, reverse, length, length-reverse, reverse-cons}
use klevret.Prelude.{All, All-reverse, ok, ◌>>=◌}
use klevret.Endians.{Endian, little, big, IsByte, from_le, to_le, byteswap}
use klevret.Endians.{network_array_to_host_endian, network_range_to_host_endian}
use klevret.Endians.{host_to_network_endian_array}
use mathlib.Core.List.{reverse-reverse}
use native.Mathlib.Nat.{pow-suc}

-- The number that bytes stand for in network order: the first byte weighs most.
unfoldable pub from_be : List ℕ → ℕ
from_be [] = 0
from_be (b ∷ bs) = b * 256 ^ length bs + from_be bs

-- The bytes of a number in network order.
abbrev pub to_be : ℕ → ℕ → List ℕ
to_be n v = reverse (to_le n v)

pub length-to_le : (n v : ℕ) → length (to_le n v) ≡ n
unfolding to_le
length-to_le zero v = refl
length-to_le (suc n) v = ap suc (length-to_le n (v / 256))

pub to_le-IsByte : (n v : ℕ) → All IsByte (to_le n v)
unfolding to_le
to_le-IsByte zero v = tt
to_le-IsByte (suc n) v = (omega arith, to_le-IsByte n (v / 256))

pub to_le-from_le : (bs : List ℕ) → All IsByte bs → to_le (length bs) (from_le bs) ≡ bs
unfolding to_le from_le
to_le-from_le [] h = refl
to_le-from_le (b ∷ bs) (p, h) =
    let low : (b + 256 * from_le bs) % 256 ≡ b = omega arith in
    let high : (b + 256 * from_le bs) / 256 ≡ from_le bs = omega arith in
    rw (low, high, to_le-from_le bs h)

pub from_le-to_le : (n v : ℕ) → v < 256 ^ n → from_le (to_le n v) ≡ v
unfolding to_le from_le
from_le-to_le zero v h = omega arith
from_le-to_le (suc n) v h = omega (arith, from_le-to_le n (v / 256) (omega (arith, pow-suc 256 n)))

from_le-append : (xs ys : List ℕ) → from_le (xs ++ ys) ≡ from_le xs + 256 ^ length xs * from_le ys
unfolding from_le
from_le-append [] ys = omega arith
from_le-append (x ∷ xs) ys =
    omega (arith, from_le-append xs ys, ap (λ (t : ℕ). t * from_le ys) (pow-suc 256 (length xs)))

pub from_le-reverse : (bs : List ℕ) → from_le (reverse bs) ≡ from_be bs
unfolding from_be from_le
from_le-reverse [] = refl
from_le-reverse (b ∷ bs) =
    rw (reverse-cons b bs, from_le-append (reverse bs) (b ∷ []), length-reverse bs)
      (omega (arith, from_le-reverse bs))

pub byteswap-from_le :
    (bs : List ℕ) → All IsByte bs → byteswap (length bs) (from_le bs) ≡ from_be bs
byteswap-from_le bs h = rw (to_le-from_le bs h) (from_le-reverse bs)

-- On a host of either byte order, bytes in network order are read with the first byte as the
-- highest, if there are `sizeof(T)` of them.
pub network_array_to_host_endian-from_be :
    (native : Endian) (arr : List ℕ)
    → All IsByte arr
    → network_array_to_host_endian native (length arr) arr ≡ ok (from_be arr)
unfolding network_array_to_host_endian
network_array_to_host_endian-from_be little arr h = ground (arith, byteswap-from_le arr h)
network_array_to_host_endian-from_be big arr h = ground (arith, from_le-reverse arr)

pub range-eq-array :
    (native : Endian) (size : ℕ) (arr : List ℕ)
    → network_range_to_host_endian native size arr ≡ network_array_to_host_endian native size arr
unfolding network_array_to_host_endian network_range_to_host_endian
range-eq-array native size arr = refl

-- On a host of either byte order the array holds the number's bytes, highest first.
pub host_to_network_endian_array-to_be :
    (native : Endian) (n v : ℕ) → host_to_network_endian_array native n n v ≡ ok (to_be n v)
unfolding host_to_network_endian_array
host_to_network_endian_array-to_be little n v =
    let e : to_le n (byteswap n v) ≡ to_be n v =
      subst (λ k. to_le k (from_le (to_be n v)) ≡ to_be n v)
        (length-reverse (to_le n v) ∙ length-to_le n v)
        (to_le-from_le (to_be n v) (All-reverse IsByte (to_le n v) (to_le-IsByte n v))) in
    ground arith
host_to_network_endian_array-to_be big n v = ground arith

-- A number written in network order is read back.
pub network_array_to_host_endian-host_to_network_endian_array :
    (native other : Endian) (n v : ℕ)
    → v < 256 ^ n
    → (host_to_network_endian_array native n n v >>= network_array_to_host_endian other n) ≡ ok v
network_array_to_host_endian-host_to_network_endian_array native other n v h =
    rw (host_to_network_endian_array-to_be native n v) (
      subst (λ k. network_array_to_host_endian other k (to_be n v) ≡ ok v)
        (length-reverse (to_le n v) ∙ length-to_le n v)
        (network_array_to_host_endian-from_be other (to_be n v)
            (All-reverse IsByte (to_le n v) (to_le-IsByte n v))
          ∙ ap ok (
              sym (from_le-reverse (to_be n v))
              ∙ ap from_le (reverse-reverse (to_le n v))
              ∙ from_le-to_le n v h)))

pub from_be-lt : (bs : List ℕ) → All IsByte bs → from_be bs < 256 ^ length bs
unfolding from_be
from_be-lt [] h = omega arith
from_be-lt (b ∷ bs) (p, h) =
    let below : b * 256 ^ length bs ≤ 255 * 256 ^ length bs = grind arith in
    omega (arith, pow-suc 256 (length bs), from_be-lt bs h)
