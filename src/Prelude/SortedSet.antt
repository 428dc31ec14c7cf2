-- ===== src/Prelude/SortedSet.antt =====
-- `std::set` as the list of its elements in the order of `operator<`.
use mathlib.Core.Path.{◌≡◌}
use mathlib.Core.Bool.{Bool, true, false, ◌||◌}
use mathlib.Core.Logic.{inl, inr}
use native.Mathlib.Omega.{arith}
use mathlib.Core.List.{List, [], ◌∷◌}
use klevret.Prelude.Tests.{if◌then◌else◌, Bool-cases}
use klevret.Prelude.Order.{StrictOrder, same, same_left}

module _ {ℓ} {K : Type ℓ} (o : StrictOrder K) where
  -- `insert(k)`
  unfoldable pub insert : K → List K → List K
  insert k [] = k ∷ []
  insert k (j ∷ s) = if o.less k j then k ∷ j ∷ s else if o.less j k then j ∷ insert k s else j ∷ s

  -- `find(k) != end()`
  unfoldable pub contains : K → List K → Bool
  contains k [] = false
  contains k (j ∷ s) = if same o j k then true else contains k s

-- `std::find(begin, end, k) != end` by `operator==`, and `erase` of what it finds.
module _ {ℓ} {K : Type ℓ} (eq : K → K → Bool) where
  unfoldable pub std_find : K → List K → Bool
  std_find k [] = false
  std_find k (j ∷ s) = if eq j k then true else std_find k s

  unfoldable pub erase_found : K → List K → List K
  erase_found k [] = []
  erase_found k (j ∷ s) = if eq j k then s else j ∷ erase_found k s

module _ {ℓ} {K : Type ℓ} (o : StrictOrder K) where
  same_of_neither : {j k : K} → o.less k j ≡ false → o.less j k ≡ false → same o k j ≡ true
  unfolding same
  same_of_neither p q = rw p (rw q)

  -- What the set holds after an insertion.
  pub contains-insert :
      (a k : K) (s : List K) → contains o a (insert o k s) ≡ (same o k a || contains o a s)
  unfolding contains insert
  contains-insert a k [] = ground arith
  contains-insert a k (j ∷ s) =
      let rest = contains-insert a k s in
      elim (Bool-cases (o.less k j)) [
        | inl p ↦ rw p (ground arith)
        | inr p ↦ elim (Bool-cases (o.less j k)) [
          | inl q ↦ rw p (rw q (ground (arith, rest)))
          | inr q ↦ rw p (rw q (ground (arith, same_left o k j a (same_of_neither p q))))
        ]
      ]
