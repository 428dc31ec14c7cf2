-- ===== src/CommandLine/Console/Backspace.antt =====
-- cli/src/main.cpp: BACKSPACE after a character that was typed.
use klevret.Prelude.{ℕ, suc, ◌-◌, ◌≡◌, refl, ap, ◌∙◌, arith, ltb, ltb→lt, ◌==◌, false}
use klevret.Prelude.{
  List, [], ◌∷◌, ◌++◌, length, length-append, take, drop, append_assoc, append-nil,
}
use klevret.Prelude.{Bool-cases, inl, inr, ok}
use klevret.CommandLine.Console.{Console, Round}
use klevret.CommandLine.Console.{on_backspace, on_character}

erased_behind :
    (before after : List ℕ) (x : ℕ)
    → take (length before) (before ++ (x ∷ after))
        ++ drop (suc (length before)) (before ++ (x ∷ after))
      ≡ before ++ after
erased_behind [] after x = refl
erased_behind (b ∷ before) after x = ap (◌∷◌ b) (erased_behind before after x)

-- A console with a line and a cursor.
abbrev pub console_at : List ℕ → ℕ → ℕ → Console
console_at input pos prev = record {
  current_command_input = input;
  current_command_input_cursor_pos = pos;
  prev = prev;
}

-- BACKSPACE with the cursor behind a character of the line.
on_backspace_behind :
    (before after : List ℕ) (x prev : ℕ)
    → (round : Round) × (on_backspace
          (console_at (before ++ (x ∷ after)) (suc (length before)) prev)
        ≡ ok round)
      × (round.console ≡ console_at (before ++ after) (length before) prev)
unfolding on_backspace
on_backspace_behind before after x prev =
    rw (some_left, back, inside)
      (
        _,
        refl,
        ap (λ (input : List ℕ). console_at input (length before) prev)
            (erased_behind before after x),
      )
  where
    some_left : (suc (length before) == 0) ≡ false
    some_left = ground arith

    back : suc (length before) - 1 ≡ length before
    back = omega arith

    inside : ltb (length (before ++ (x ∷ after))) (length before) ≡ false
    inside = elim (Bool-cases (ltb (length (before ++ (x ∷ after))) (length before))) [
      | inl h ↦ absurd (
          omega (
            arith,
            ltb→lt (length (before ++ (x ∷ after))) (length before) h,
            length-append before (x ∷ after),
          ))
      | inr h ↦ h
    ]

-- A character typed at the end of the line is taken back by BACKSPACE.
pub on_backspace-on_character :
    (line : List ℕ) (c prev : ℕ)
    → (round : Round) × (on_backspace (on_character c (console_at line (length line) prev)).console
        ≡ ok round)
      × (round.console ≡ console_at line (length line) prev)
on_backspace-on_character line c prev =
    let (round, e, f) = on_backspace_behind line [] c prev in
    (round, e, f ∙ ap (λ (input : List ℕ). console_at input (length line) prev) (append-nil line))

-- With the cursor in front of a character of the line, a character that is typed goes to the end of the
-- line, and BACKSPACE then takes the one in front of which the cursor was.
pub on_backspace_elsewhere :
    (before after : List ℕ) (x c prev : ℕ)
    → (round : Round) × (on_backspace
          (on_character c (console_at (before ++ (x ∷ after)) (length before) prev)).console
        ≡ ok round)
      × (round.console ≡ console_at (before ++ (after ++ (c ∷ []))) (length before) prev)
on_backspace_elsewhere before after x c prev =
    let (round, e, f) = on_backspace_behind before (after ++ (c ∷ [])) x prev in
    (
      round,
      ap (λ (input : List ℕ). on_backspace (console_at input (suc (length before)) prev))
            (append_assoc before (x ∷ after) (c ∷ []))
          ∙ e,
      f,
    )
