-- ===== src/Prelude/Map.antt =====
-- `std::map` as an association list, with the keys compared by the map's `operator<`.
use mathlib.Core.Path.{◌≡◌, refl}
use mathlib.Core.Logic.{inl, inr}
use mathlib.Core.Bool.{true, false}
use mathlib.Core.Option.{Option, none, some}
use mathlib.Core.List.{List, [], ◌∷◌}
use native.Mathlib.Omega.{arith}
use klevret.Prelude.Tests.{if◌then◌else◌, Bool-cases}
use klevret.Prelude.Order.{StrictOrder, same, same_left, same_sym, same_trans}

module _ {ℓ κ} {K : Type ℓ} {V : Type κ} (o : StrictOrder K) where
  -- `find`
  unfoldable pub find : K → List (K × V) → Option V
  find k [] = none
  find k ((j, v) ∷ m) = if same o j k then some v else find k m

  -- `m[k] = v`
  unfoldable pub assign : K → V → List (K × V) → List (K × V)
  assign k v [] = (k, v) ∷ []
  assign k v ((j, w) ∷ m) = if same o j k then (k, v) ∷ m else (j, w) ∷ assign k v m

  -- `erase(k)`
  unfoldable pub erase : K → List (K × V) → List (K × V)
  erase k [] = []
  erase k ((j, v) ∷ m) = if same o j k then erase k m else (j, v) ∷ erase k m

  pub find-assign :
      (k j : K) (v : V) (m : List (K × V))
      → find j (assign k v m) ≡ (if same o k j then some v else find j m)
  unfolding find assign
  find-assign k j v [] = refl
  find-assign k j v ((i, w) ∷ m) =
      ground (arith, same_left o i k j, same_trans o i j k, same_sym o k j, find-assign k j v m)

  pub find-erase :
      (k j : K) (m : List (K × V)) → find j (erase k m) ≡ (if same o k j then none else find j m)
  unfolding find erase
  find-erase k j [] = elim (Bool-cases (same o k j)) [ inl e ↦ rw e | inr e ↦ rw e ]
  find-erase k j ((i, w) ∷ m) =
      ground (arith, same_left o i k j, same_trans o i j k, same_sym o k j, find-erase k j m)

  -- Equivalent keys find the same entry.
  pub find-same : (i j : K) (m : List (K × V)) → same o i j ≡ true → find i m ≡ find j m
  unfolding find
  find-same i j [] h = refl
  find-same i j ((k, v) ∷ m) h = ground (
    arith,
    same_left o i j k,
    same_sym o k i,
    same_sym o i k,
    same_sym o k j,
    same_sym o j k,
    find-same i j m h,
  )

  pub find-assign-same :
      (k j : K) (v : V) (m : List (K × V)) → same o k j ≡ true → find j (assign k v m) ≡ some v
  find-assign-same k j v m h = rw (find-assign k j v m, h) refl

  pub find-assign_ne :
      (k j : K) (v : V) (m : List (K × V)) → same o k j ≡ false → find j (assign k v m) ≡ find j m
  find-assign_ne k j v m h = rw (find-assign k j v m, h) refl

  -- What is found after an erasure was there, under a key that is another.
  pub find-erase-some :
      (k j : K) (m : List (K × V)) {v : V}
      → find j (erase k m) ≡ some v
      → (find j m ≡ some v) × (same o k j ≡ false)
  find-erase-some k j m h = ground (arith, find-erase k j m)

  pub find-erase_ne :
      (k j : K) (m : List (K × V)) → same o k j ≡ false → find j (erase k m) ≡ find j m
  find-erase_ne k j m h = rw (find-erase k j m, h) refl
