-- ===== src/Prelude/Order.antt =====
-- Strict weak orders, as C++ containers use them: two keys are one when neither is less.
use mathlib.Core.Path.{◌≡◌, sym, ◌∙◌}
use mathlib.Core.Bool.{Bool, true, false, not, ◌&&◌}
use mathlib.Core.Logic.{inl, inr}
use native.Mathlib.Omega.{arith}
use klevret.Prelude.Tests.{Bool-cases}

-- What `std::set` and `std::map` ask of `operator<`.
pub record StrictOrder {ℓ} (K : Type ℓ) : Type ℓ where
  pub less : K → K → Bool
  pub irreflexive : (a : K) → less a a ≡ false
  pub incomparable_trans :
      (a b c : K)
      → less a b ≡ false
      → less b a ≡ false
      → less b c ≡ false
      → less c b ≡ false
      → less a c ≡ false

module _ {ℓ} {K : Type ℓ} (o : StrictOrder K) where
  -- Key equivalence of the containers.
  unfoldable pub same : K → K → Bool
  same a b = not (o.less a b) && not (o.less b a)

  pub same_refl : (a : K) → same a a ≡ true
  unfolding same
  same_refl a = rw (o.irreflexive a)

  pub same_sym : (a b : K) → same a b ≡ true → same b a ≡ true
  unfolding same
  same_sym a b h = ground arith

  pub same_trans : (a b c : K) → same a b ≡ true → same b c ≡ true → same a c ≡ true
  unfolding same
  same_trans a b c p q = ground (arith, o.incomparable_trans a b c, o.incomparable_trans c b a)

  -- Equivalent keys are equivalent to the same keys.
  pub same_left : (a b c : K) → same a b ≡ true → same a c ≡ same b c
  same_left a b c h = elim (Bool-cases (same a c)) [
    | inl p ↦ p ∙ sym (same_trans b a c (same_sym a b h) p)
    | inr p ↦ elim (Bool-cases (same b c)) [ inl q ↦ cc (same_trans a b c h q) | inr q ↦ p ∙ sym q ]
  ]
