-- ===== src/CommandLine/Patterns/Typed.antt =====
-- cli/src/Command.cpp: what the elements of a parsed pattern are.
use klevret.Prelude.{ℕ, zero, suc, ◌≡◌, refl, sym, ap, false, Bool-cases, inl, inr, ◌==◌, not}
use klevret.Prelude.{List, [], ◌∷◌, ◌++◌, length, All, All-append, eq_text}
use klevret.Prelude.{Result, ok, throw, >>=-eq-ok, ok-injective, throw_if-ok, subst, end_expected}
use klevret.WrapperForParsing.{
  WrapperForParsing, wrap, get_next, is_end, is_alpha, is_alnum, read_while, skip_whitespaces,
}
use klevret.CommandLine.Elements.{
  CommandElementType, CommandElement, CommandHandler, element, no_element, eq_element,
}
use klevret.CommandLine.Patterns.{
  KlevretComponent, Command, make_command, parse_pattern, parse_pattern_element,
}
use klevret.CommandLine.Patterns.{
  parse_fixed_word, parse_variable_element, find_element_type, iter_second,
}
use klevret.CommandLine.Patterns.{str_to_element_type_map}
use klevret.CommandLine.Tree.Index.{IsPatternElement}

-- A type that is no `NONE`.
abbrev IsTyped : CommandElementType → Type 0
IsTyped t = eq_element no_element (element t []) ≡ false

found-IsTyped :
    (key : List ℕ) (entries : List (List ℕ × CommandElementType)) (t : CommandElementType)
    → All (λ entry. IsTyped entry.1) entries
    → iter_second (find_element_type key entries) ≡ ok t
    → IsTyped t
found-IsTyped key [] t v h = absurd (cc)
found-IsTyped key ((k, s) ∷ entries) t (v, vs) h = elim (Bool-cases (eq_text k key)) [
  | inl e ↦
      let found : ◌≡◌ {A = Result CommandElementType} (ok s) (ok t) = rw e at h in
      subst IsTyped (ok-injective found) v
  | inr e ↦ found-IsTyped key entries t vs (rw e at h)
]

map-IsTyped : All (λ entry. IsTyped entry.1) str_to_element_type_map
unfolding eq_element
map-IsTyped = (refl, (refl, (refl, (refl, (refl, (refl, tt))))))

-- A vector of elements with one more.
appended :
    (elements : List CommandElement) (e : CommandElement)
    → All IsPatternElement elements
    → IsPatternElement e
    → All IsPatternElement (elements ++ (e ∷ []))
appended elements e v w = All-append IsPatternElement elements (e ∷ []) v (w, tt)

parse_fixed_word-IsPatternElement :
    (elements : List CommandElement) (w : WrapperForParsing) (elements' : List CommandElement)
    (w' : WrapperForParsing)
    → All IsPatternElement elements
    → parse_fixed_word elements w ≡ ok (elements', w')
    → All IsPatternElement elements'
unfolding parse_fixed_word eq_element
parse_fixed_word-IsPatternElement elements w elements' w' v h =
    subst (All IsPatternElement)
      (ap (λ (r : List CommandElement × WrapperForParsing). r.0) (ok-injective h))
      (appended elements _ v (record { typed = refl; unhandled = refl }))

parse_variable_element-IsPatternElement :
    (elements : List CommandElement) (w : WrapperForParsing) (elements' : List CommandElement)
    (w' : WrapperForParsing)
    → All IsPatternElement elements
    → parse_variable_element elements w ≡ ok (elements', w')
    → All IsPatternElement elements'
unfolding parse_variable_element
parse_variable_element-IsPatternElement elements w elements' w' v h =
    let w_1 = get_next w in
    let word = read_while is_alnum w_1.ch w_1.rest in
    let (_, h_1) = throw_if-ok (not (w.ch == b'<')) _ _ h in
    let (_, h_2) = throw_if-ok (eq_text word.0 []) _ _ h_1 in
    let (t, e, h_3) =
      >>=-eq-ok (iter_second (find_element_type word.0 str_to_element_type_map)) _ h_2 in
    let (_, h_4) = throw_if-ok (not (word.1.ch == b'>')) _ _ h_3 in
    subst (All IsPatternElement)
      (ap (λ (r : List CommandElement × WrapperForParsing). r.0) (ok-injective h_4))
      (appended elements (element t []) v (record {
        typed = found-IsTyped word.0 str_to_element_type_map t map-IsTyped e;
        unhandled = refl;
      }))

parse_pattern_element-IsPatternElement :
    (elements : List CommandElement) (w : WrapperForParsing) (elements' : List CommandElement)
    (w' : WrapperForParsing)
    → All IsPatternElement elements
    → parse_pattern_element elements w ≡ ok (elements', w')
    → All IsPatternElement elements'
unfolding parse_pattern_element
parse_pattern_element-IsPatternElement elements w elements' w' v h =
    elim (Bool-cases (is_alpha w.ch)) [
      | inl a ↦
          parse_fixed_word-IsPatternElement elements w elements' w' v
            (rw (a, parse_pattern_element) at h)
      | inr a ↦ elim (Bool-cases (w.ch == b'<')) [
        | inl b ↦
            parse_variable_element-IsPatternElement elements w elements' w' v
              (rw (a, b, parse_pattern_element) at h)
        | inr b ↦
            let wrong : ◌≡◌ {A = Result (List CommandElement × WrapperForParsing)} (throw _)
                (ok (elements', w')) =
              rw (a, b, parse_pattern_element) at h in
            absurd (cc)
      ]
    ]

parse_pattern-IsPatternElement :
    (fuel : ℕ) (elements : List CommandElement) (w : WrapperForParsing)
    (elements' : List CommandElement) (w' : WrapperForParsing)
    → All IsPatternElement elements
    → parse_pattern fuel elements w ≡ ok (elements', w')
    → All IsPatternElement elements'
unfolding parse_pattern
parse_pattern-IsPatternElement zero elements w elements' w' v h = absurd (cc)
parse_pattern-IsPatternElement (suc fuel) elements w elements' w' v h =
    elim (Bool-cases (is_end w)) [
      | inl e ↦
          let done : ◌≡◌ {A = Result (List CommandElement × WrapperForParsing)} (ok (elements, w))
              (ok (elements', w')) =
            rw (e, parse_pattern) at h in
          subst (All IsPatternElement)
            (ap (λ (r : List CommandElement × WrapperForParsing). r.0) (ok-injective done)) v
      | inr e ↦
          let ((es, v_1), f, k) =
            >>=-eq-ok (parse_pattern_element elements (skip_whitespaces w)) _
              (rw (e, parse_pattern) at h) in
          parse_pattern-IsPatternElement fuel es v_1 elements' w'
            (parse_pattern_element-IsPatternElement elements (skip_whitespaces w) es v_1 v f) k
    ]

-- Every element of a command that the constructor makes has a type and no handler, whatever the pattern.
pub make_command-IsPatternElement :
    (component : KlevretComponent) (pattern : List ℕ) (handler : CommandHandler) (command : Command)
    → make_command component pattern handler ≡ ok command
    → All IsPatternElement command.elements × (command.handler ≡ handler)
unfolding make_command
make_command-IsPatternElement component pattern handler command h =
    let ((elements, w), e, f) =
      >>=-eq-ok (parse_pattern (suc (length pattern)) [] (wrap pattern)) _ h in
    let (_, g) = throw_if-ok (not (is_end w)) end_expected _ f in
    let same = ok-injective g in
    (
      subst (All IsPatternElement) (ap (λ (c : Command). c.elements) same)
          (parse_pattern-IsPatternElement (suc (length pattern)) [] (wrap pattern) elements w tt e),
      sym (ap (λ (c : Command). c.handler) same),
    )
