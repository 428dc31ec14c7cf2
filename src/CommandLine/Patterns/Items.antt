-- ===== src/CommandLine/Patterns/Items.antt =====
-- cli/src/Command.cpp: a pattern read back, item by item.
use klevret.Prelude.{ℕ, suc, ◌≡◌, refl, sym, ap, ◌∙◌, arith, ◌==◌, true, false}
use klevret.Prelude.{List, [], ◌∷◌, ◌++◌, All, append-nil, append_assoc, ok}
use klevret.Prelude.{map}
use klevret.WrapperForParsing.{WrapperForParsing, advance, eot, is_alpha, is_space, is_end}
use klevret.WrapperForParsing.{skip_whitespaces}
use klevret.CommandLine.Elements.{CommandElement}
use klevret.CommandLine.Patterns.{parse_fixed_word, parse_pattern_element, parse_pattern}
use klevret.CommandLine.Patterns.Rounds.{
  Item, word, variable, element_of, text_of, IsItem, parse_variable_element_known,
  read_while-append,
}

-- An item is read up to what cannot be a part of a word.
pub parse_pattern_element-text_of :
    (elements : List CommandElement) (item : Item) (rest : List ℕ)
    → IsItem item
    → is_alpha (advance rest).ch ≡ false
    → parse_pattern_element elements (advance (text_of item ++ rest))
      ≡ ok (elements ++ (element_of item ∷ []), advance rest)
unfolding parse_pattern_element parse_fixed_word
parse_pattern_element-text_of elements (word []) rest (n, a) h = absurd (n refl)
parse_pattern_element-text_of elements (word (c ∷ cs)) rest (n, a) h =
    rw (a.0, read_while-append is_alpha (c ∷ cs) rest refl a h) refl
parse_pattern_element-text_of elements (variable t) rest n h =
    parse_variable_element_known elements t rest n

-- An item starts with no white space, and not with EOT.
pub text_of-starts :
    (item : Item) (rest : List ℕ)
    → IsItem item
    → (is_space (advance (text_of item ++ rest)).ch ≡ false)
      × (is_end (advance (text_of item ++ rest)) ≡ false)
text_of-starts (word []) rest (n, a) = absurd (n refl)
text_of-starts (word (c ∷ cs)) rest (n, a) = letter c a.0
  where
    letter : (c : ℕ) → is_alpha c ≡ true → (is_space c ≡ false) × ((c == eot) ≡ false)
    letter c h = (ground arith, ground arith)
text_of-starts (variable t) rest n = (refl, refl)

-- What stands behind the first item: the other items, each behind a space.
abbrev pub spaced : List Item → List ℕ
spaced [] = []
spaced (item ∷ items) = b' ' ∷ (text_of item ++ spaced items)

-- The pattern of the items.
abbrev pub print_pattern : List Item → List ℕ
print_pattern [] = []
print_pattern (item ∷ items) = text_of item ++ spaced items

spaced-not_alpha :
    (items : List Item) (rest : List ℕ)
    → is_alpha (advance rest).ch ≡ false
    → is_alpha (advance (spaced items ++ rest)).ch ≡ false
spaced-not_alpha [] rest h = h
spaced-not_alpha (item ∷ items) rest h = refl

-- A round that reads an item, with or without a space in front of it.
pub parse_pattern_item :
    (fuel : ℕ) (elements : List CommandElement) (w : WrapperForParsing) (item : Item)
    (rest : List ℕ)
    → IsItem item
    → is_alpha (advance rest).ch ≡ false
    → is_end w ≡ false
    → skip_whitespaces w ≡ advance (text_of item ++ rest)
    → parse_pattern (suc fuel) elements w
      ≡ parse_pattern fuel (elements ++ (element_of item ∷ [])) (advance rest)
unfolding parse_pattern
parse_pattern_item fuel elements w item rest v h e s =
    rw (e, s, parse_pattern_element-text_of elements item rest v h) refl

-- The rounds of the items, and as many more.
abbrev pub more_rounds : List Item → ℕ → ℕ
more_rounds [] fuel = fuel
more_rounds (item ∷ items) fuel = suc (more_rounds items fuel)

-- The rounds that read items, up to a text that starts with no letter.
pub parse_pattern-spaced :
    (fuel : ℕ) (elements : List CommandElement) (items : List Item) (rest : List ℕ)
    → All IsItem items
    → is_alpha (advance rest).ch ≡ false
    → parse_pattern (more_rounds items fuel) elements (advance (spaced items ++ rest))
      ≡ parse_pattern fuel (elements ++ map element_of items) (advance rest)
parse_pattern-spaced fuel elements [] rest v h =
    ap (λ e. parse_pattern fuel e (advance rest)) (sym (append-nil elements))
parse_pattern-spaced fuel elements (item ∷ items) rest (v, vs) h =
    let skipped : skip_whitespaces (advance (b' ' ∷ (text_of item ++ (spaced items ++ rest))))
        ≡ advance (text_of item ++ (spaced items ++ rest)) =
      ap (λ (r : List ℕ × WrapperForParsing). r.1)
        (read_while-append is_space (b' ' ∷ []) (text_of item ++ (spaced items ++ rest)) refl
          (refl, tt) (text_of-starts item (spaced items ++ rest) v).0) in
    ap (λ t. parse_pattern (suc (more_rounds items fuel)) elements (advance (b' ' ∷ t)))
      (append_assoc (text_of item) (spaced items) rest)
    ∙ parse_pattern_item (more_rounds items fuel) elements
        (advance (b' ' ∷ (text_of item ++ (spaced items ++ rest)))) item (spaced items ++ rest) v
        (spaced-not_alpha items rest h) refl skipped
    ∙ parse_pattern-spaced fuel (elements ++ (element_of item ∷ [])) items rest vs h
    ∙ ap (λ e. parse_pattern fuel e (advance rest))
        (append_assoc elements (element_of item ∷ []) (map element_of items))

-- The whole pattern, where something stands in it.
pub parse_pattern-print_pattern :
    (fuel : ℕ) (items : List Item) (rest : List ℕ)
    → All IsItem items
    → is_alpha (advance rest).ch ≡ false
    → parse_pattern (more_rounds items fuel) [] (advance (print_pattern items ++ rest))
      ≡ parse_pattern fuel (map element_of items) (advance rest)
parse_pattern-print_pattern fuel [] rest v h = refl
parse_pattern-print_pattern fuel (item ∷ items) rest (v, vs) h =
    let (not_space, not_end) = text_of-starts item (spaced items ++ rest) v in
    let skipped : skip_whitespaces (advance (text_of item ++ (spaced items ++ rest)))
        ≡ advance (text_of item ++ (spaced items ++ rest)) =
      ap (λ (r : List ℕ × WrapperForParsing). r.1)
        (read_while-append is_space [] (text_of item ++ (spaced items ++ rest)) refl tt
          not_space) in
    ap (λ t. parse_pattern (suc (more_rounds items fuel)) [] (advance t))
      (append_assoc (text_of item) (spaced items) rest)
    ∙ parse_pattern_item (more_rounds items fuel) []
        (advance (text_of item ++ (spaced items ++ rest))) item (spaced items ++ rest) v
        (spaced-not_alpha items rest h) not_end skipped
    ∙ parse_pattern-spaced fuel (element_of item ∷ []) items rest vs h
