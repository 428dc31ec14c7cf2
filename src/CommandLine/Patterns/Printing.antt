-- ===== src/CommandLine/Patterns/Printing.antt =====
-- cli/src/Command.cpp: the constructor of Command on the patterns that are printed.
use klevret.Prelude.{ℕ, suc, ◌+◌, ◌-◌, ◌≤◌, ◌≡◌, refl, ap, ◌∙◌, arith, List, [], ◌∷◌, ◌++◌, All}
use klevret.Prelude.{length, length-append, map, append-nil, ok, throw, element_expected, false}
use klevret.WrapperForParsing.{advance, wrap, is_alpha, read_while}
use klevret.CommandLine.Elements.{CommandHandler}
use klevret.CommandLine.Patterns.{
  KlevretComponent, parse_pattern, parse_pattern_element, make_command,
}
use klevret.CommandLine.Patterns.Rounds.{Item, word, variable, element_of, text_of, IsItem}
use klevret.CommandLine.Patterns.Items.{
  spaced, print_pattern, more_rounds, parse_pattern-print_pattern,
}

-- A pattern has at least as many characters as items.
text_of-length : (item : Item) → IsItem item → 1 ≤ length (text_of item)
text_of-length (word []) v = absurd (v.0 refl)
text_of-length (word (c ∷ cs)) v = omega arith
text_of-length (variable t) v = omega arith

spaced-length : (items : List Item) → length items ≤ length (spaced items)
spaced-length [] = omega arith
spaced-length (item ∷ items) =
    omega (arith, length-append (text_of item) (spaced items), spaced-length items)

print_pattern-length :
    (items : List Item) → All IsItem items → length items ≤ length (print_pattern items)
print_pattern-length [] v = omega arith
print_pattern-length (item ∷ items) (v, vs) =
    omega (
      arith,
      length-append (text_of item) (spaced items),
      spaced-length items,
      text_of-length item v,
    )

more_rounds-length : (items : List Item) (fuel : ℕ) → more_rounds items fuel ≡ length items + fuel
more_rounds-length [] fuel = omega arith
more_rounds-length (item ∷ items) fuel = omega (arith, more_rounds-length items fuel)

-- The rounds that the constructor takes for a pattern with `extra` more characters.
rounds_of :
    (items : List Item) (extra : List ℕ)
    → All IsItem items
    → suc (length (print_pattern items ++ extra))
      ≡ more_rounds items (suc (length (print_pattern items ++ extra) - length items))
rounds_of items extra v = omega (
  arith,
  more_rounds-length items (suc (length (print_pattern items ++ extra) - length items)),
  length-append (print_pattern items) extra,
  print_pattern-length items v,
)

-- What is left to do behind the items.
parsed_items :
    (items : List Item) (extra : List ℕ)
    → All IsItem items
    → is_alpha (advance extra).ch ≡ false
    → parse_pattern
        (suc (length (print_pattern items ++ extra)))
        []
        (wrap (print_pattern items ++ extra))
      ≡ parse_pattern
          (suc (length (print_pattern items ++ extra) - length items))
          (map element_of items)
          (advance extra)
parsed_items items extra v h =
    ap (λ n. parse_pattern n [] (wrap (print_pattern items ++ extra))) (rounds_of items extra v)
    ∙ parse_pattern-print_pattern (suc (length (print_pattern items ++ extra) - length items)) items
        extra v h

-- The pattern that is printed of words of letters and of variables with known names is parsed to their
-- elements, in order.
pub make_command-print_pattern :
    (component : KlevretComponent) (items : List Item) (handler : CommandHandler)
    → All IsItem items
    → make_command component (print_pattern items) handler
      ≡ ok (record {
        klevret_component = component;
        elements = map element_of items;
        handler = handler;
      })
unfolding make_command parse_pattern
make_command-print_pattern component items handler v =
    let pattern : parse_pattern (suc (length (print_pattern items))) [] (wrap (print_pattern items))
        ≡ ok (map element_of items, advance []) =
      rw (append-nil (print_pattern items)) at (parsed_items items [] v refl) in
    rw pattern refl

-- With a space at its end, the pattern of any items is refused.
pub make_command_trailing_space :
    (component : KlevretComponent) (items : List Item) (handler : CommandHandler)
    → All IsItem items
    → make_command component (print_pattern items ++ (b' ' ∷ [])) handler ≡ throw element_expected
unfolding make_command parse_pattern parse_pattern_element read_while
make_command_trailing_space component items handler v =
    rw (parsed_items items (b' ' ∷ []) v refl) refl
