-- ===== src/HardwareAddress/Laws.antt =====
-- dhcp/src/HardwareAddress.cpp: the order of MAC addresses, and the bytes read and written.
use klevret.Prelude.{ℕ, suc, ◌<◌, ◌≡◌, ◌↔◌, refl, ap, arith, true, false, List, [], ◌∷◌, length}
use klevret.Prelude.{All, ◌+◌, ◌*◌, ◌^◌, ◌≤◌}
use klevret.Prelude.Order.{StrictOrder, same}
use klevret.HardwareAddress.{MacAddress, data_of, with_data, less_mac, less_from, eq_mac}
use klevret.Endians.{IsByte}
use klevret.Endians.Laws.{from_be, from_be-lt}

less_from_irreflexive : (xs : List ℕ) → less_from xs xs ≡ false
unfolding less_from
less_from_irreflexive [] = refl
less_from_irreflexive (x ∷ xs) = ground (arith, less_from_irreflexive xs)

less_from_total :
    (xs ys : List ℕ)
    → length xs ≡ length ys
    → less_from xs ys ≡ false
    → less_from ys xs ≡ false
    → xs ≡ ys
unfolding less_from
less_from_total [] [] e p q = refl
less_from_total [] (y ∷ ys) e p q = absurd (omega arith)
less_from_total (x ∷ xs) [] e p q = absurd (omega arith)
less_from_total (x ∷ xs) (y ∷ ys) e p q = ground (arith, less_from_total xs ys (omega arith))

less_mac_total : (a b : MacAddress) → less_mac a b ≡ false → less_mac b a ≡ false → a ≡ b
unfolding less_mac
less_mac_total a b p q = ap with_data (less_from_total (data_of a) (data_of b) refl p q)

pub less_mac_irreflexive : (a : MacAddress) → less_mac a a ≡ false
unfolding less_mac
less_mac_irreflexive a = less_from_irreflexive (data_of a)

pub less_mac_incomparable :
    (a b c : MacAddress)
    → less_mac a b ≡ false
    → less_mac b a ≡ false
    → less_mac b c ≡ false
    → less_mac c b ≡ false
    → less_mac a c ≡ false
less_mac_incomparable a b c p q r s =
    rw (less_mac_total a b p q, less_mac_total b c r s) (less_mac_irreflexive c)

-- The order of the maps that are keyed by MAC addresses.
abbrev pub mac_order : StrictOrder MacAddress
mac_order = record {
  less = less_mac;
  irreflexive = less_mac_irreflexive;
  incomparable_trans = less_mac_incomparable;
}

pub same_mac→eq : (a b : MacAddress) → same mac_order a b ≡ true → a ≡ b
unfolding same
same_mac→eq a b h = less_mac_total a b (ground arith) (ground arith)

-- `operator==` says exactly that the addresses are equal.
pub eq_mac_iff : (a b : MacAddress) → (eq_mac a b ≡ true) ↔ (a ≡ b)
eq_mac_iff a b = (λ h. ground arith, λ e. ground arith)

mul_gap : (x y p : ℕ) → x < y → x * p + p ≤ y * p
mul_gap x y p h = let e : suc x * p ≤ y * p = grind arith in omega (arith, e)

-- `operator<` compares the bytes from the front, which is the order of the numbers they stand for.
less_from_iff :
    (xs ys : List ℕ)
    → length xs ≡ length ys
    → All IsByte xs
    → All IsByte ys
    → (less_from xs ys ≡ true) ↔ (from_be xs < from_be ys)
unfolding less_from from_be
less_from_iff [] [] e h k = (λ p. cc, λ p. absurd (omega arith))
less_from_iff [] (y ∷ ys) e h k = absurd (omega arith)
less_from_iff (x ∷ xs) [] e h k = absurd (omega arith)
less_from_iff (x ∷ xs) (y ∷ ys) e (hx, h) (ky, k) =
    let n : length xs ≡ length ys = omega arith in
    let size : 256 ^ length xs ≡ 256 ^ length ys = ap (λ m. 256 ^ m) n in
    let low = from_be-lt xs h in
    let low' = from_be-lt ys k in
    let (to, from) = less_from_iff xs ys n h k in
    (
      λ p. ground (arith, mul_gap x y (256 ^ length ys), to),
      λ p. ground (arith, mul_gap y x (256 ^ length ys), from),
    )

-- On addresses of bytes `operator<` is the order of the 48-bit numbers that they are, first byte
-- highest.
pub less_mac_iff :
    (a b : MacAddress)
    → All IsByte (data_of a)
    → All IsByte (data_of b)
    → (less_mac a b ≡ true) ↔ (from_be (data_of a) < from_be (data_of b))
unfolding less_mac
less_mac_iff a b h k = less_from_iff (data_of a) (data_of b) refl h k
