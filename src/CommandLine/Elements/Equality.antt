-- ===== src/CommandLine/Elements/Equality.antt =====
-- cli/src/Command.hpp: `operator==` of CommandElement.
use klevret.Prelude.{
  ℕ, ◌≡◌, refl, sym, ap, ◌∙◌, arith, ◌==◌, true, eq_text, eq_text_refl, eq_of_eq_text,
  if◌then◌else◌,
}
use klevret.CommandLine.Elements.{CommandElement, CommandElementType, enumerator, eq_element}

-- The enumerator determines the type.
of_enumerator : ℕ → CommandElementType
of_enumerator n =
    if n == 0
    then CommandElementType.none
    else if n == 1
    then CommandElementType.fixed_word
    else if n == 2
    then CommandElementType.string
    else if n == 3
    then CommandElementType.name
    else if n == 4
    then CommandElementType.ip_v4_address
    else if n == 5
    then CommandElementType.ip_v4_subnet_mask
    else if n == 6
    then CommandElementType.ip_v6_address
    else CommandElementType.ip_v6_subnet_mask

of_enumerator-enumerator : (t : CommandElementType) → of_enumerator (enumerator t) ≡ t
unfolding of_enumerator
of_enumerator-enumerator CommandElementType.none = refl
of_enumerator-enumerator CommandElementType.fixed_word = refl
of_enumerator-enumerator CommandElementType.string = refl
of_enumerator-enumerator CommandElementType.name = refl
of_enumerator-enumerator CommandElementType.ip_v4_address = refl
of_enumerator-enumerator CommandElementType.ip_v4_subnet_mask = refl
of_enumerator-enumerator CommandElementType.ip_v6_address = refl
of_enumerator-enumerator CommandElementType.ip_v6_subnet_mask = refl

enumerator-injective : (s t : CommandElementType) → enumerator s ≡ enumerator t → s ≡ t
enumerator-injective s t h =
    sym (of_enumerator-enumerator s) ∙ ap of_enumerator h ∙ of_enumerator-enumerator t

-- `operator==` of elements is an equivalence.
pub eq_element_refl : (a : CommandElement) → eq_element a a ≡ true
unfolding eq_element
eq_element_refl a = ground (arith, eq_text_refl a.fixed_value)

-- Equal elements have one type and one word, and compare alike.
pub eq_of_eq_element :
    (a b : CommandElement)
    → eq_element a b ≡ true
    → (a.element_type ≡ b.element_type) × (a.fixed_value ≡ b.fixed_value)
unfolding eq_element
eq_of_eq_element a b h =
    let e : enumerator a.element_type ≡ enumerator b.element_type = ground arith in
    let f : eq_text a.fixed_value b.fixed_value ≡ true = ground arith in
    (
      enumerator-injective a.element_type b.element_type e,
      eq_of_eq_text a.fixed_value b.fixed_value f,
    )

pub eq_element_left :
    (a b c : CommandElement) → eq_element a b ≡ true → eq_element a c ≡ eq_element b c
unfolding eq_element
eq_element_left a b c h = let (t, v) = eq_of_eq_element a b h in rw (t, v) refl

pub eq_element_sym : (a b : CommandElement) → eq_element a b ≡ true → eq_element b a ≡ true
eq_element_sym a b h = sym (eq_element_left a b a h) ∙ eq_element_refl a
