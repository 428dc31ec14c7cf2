-- ===== src/CommandLine/Console/Cursor.antt =====
-- cli/src/main.cpp: the place of the cursor in the line that is typed.
use klevret.Prelude.{
  ℕ, zero, suc, ◌-◌, ◌≤◌, ◌≡◌, refl, sym, ap, ◌∙◌, arith, ltb, ltb→lt, ◌==◌, false,
}
use klevret.Prelude.{
  List, [], ◌∷◌, ◌++◌, length, length-append, length-drop, length-take_of_le, take, drop,
}
use klevret.Prelude.{Bool-cases, inl, inr, Result, ok, >>=-eq-ok, ok-injective, subst, none}
use klevret.CommandLine.Tree.{CommandTree}
use klevret.CommandLine.Analysis.{analyze_command}
use klevret.CommandLine.Console.{Console, Key, Round, EscSequence, arrow_left, arrow_right, unknown}
use klevret.CommandLine.Console.{
  on_backspace, on_character, on_escape, on_tab, on_enter, on_key, on_keys,
}
use klevret.CommandLine.Console.{to_esq_sequence}

-- The cursor is in the line or at its end, and `prev` is what it was at the start.
pub record IsWithin (s : Console) : Type 0 where
  pub within : s.current_command_input_cursor_pos ≤ length s.current_command_input
  pub unchanged : s.prev ≡ 0

-- The line without the character in front of the cursor.
length-erased :
    (n : ℕ) (str : List ℕ)
    → suc n ≤ length str
    → length (take n str ++ drop (suc n) str) ≡ length str - 1
length-erased n str h = omega (
  arith,
  length-append (take n str) (drop (suc n) str),
  length-take_of_le n str (omega arith),
  length-drop (suc n) str,
)

-- With the cursor in the line, BACKSPACE returns, and the cursor stays in the line.
on_backspace-IsWithin :
    (s : Console)
    → IsWithin s
    → (round : Round) × (on_backspace s ≡ ok round) × IsWithin round.console
unfolding on_backspace
on_backspace-IsWithin s v = elim (Bool-cases (s.current_command_input_cursor_pos == 0)) [
  | inl e ↦ rw e (_, refl, v)
  | inr e ↦
      let in_line : ltb (length s.current_command_input) (s.current_command_input_cursor_pos - 1)
          ≡ false =
        not_above (length s.current_command_input) s.current_command_input_cursor_pos v.within in
      rw (e, in_line)
        (
          _,
          refl,
          record {
            within = shorter s.current_command_input_cursor_pos e v.within;
            unchanged = v.unchanged;
          },
        )
]
  where
    not_above : (l c : ℕ) → c ≤ l → ltb l (c - 1) ≡ false
    not_above l c h = ground arith

    shorter :
        (c : ℕ)
        → (c == 0) ≡ false
        → c ≤ length s.current_command_input
        → c - 1
          ≤ length
              (take (c - 1) s.current_command_input ++ drop (suc (c - 1)) s.current_command_input)
    shorter zero e h = absurd (cc)
    shorter (suc c) e h =
        let back : suc c - 1 ≡ c = omega arith in
        rw back (omega (arith, length-erased c s.current_command_input (omega arith)))

on_character-IsWithin : (c : ℕ) (s : Console) → IsWithin s → IsWithin (on_character c s).console
on_character-IsWithin c s v = record {
  within = omega (arith, length-append s.current_command_input (c ∷ []), v.within);
  unchanged = v.unchanged;
}

on_escape-IsWithin : (e : EscSequence) (s : Console) → IsWithin s → IsWithin (on_escape e s).console
on_escape-IsWithin unknown s v = v
on_escape-IsWithin arrow_left s v = elim (Bool-cases (s.current_command_input_cursor_pos == 0)) [
  | inl e ↦ rw e v
  | inr e ↦ rw e (record { within = omega (arith, v.within); unchanged = v.unchanged })
]
on_escape-IsWithin arrow_right s v =
    elim (Bool-cases (ltb s.current_command_input_cursor_pos (length s.current_command_input))) [
      | inl e ↦ rw e (record {
        within = ltb→lt s.current_command_input_cursor_pos (length s.current_command_input) e;
        unchanged = v.unchanged;
      })
      | inr e ↦ rw e v
    ]

module _ (split : List ℕ → List (List ℕ)) (root : CommandTree) where
  on_tab-IsWithin :
      (s : Console) (round : Round)
      → IsWithin s
      → on_tab split root s ≡ ok round
      → (round.console ≡ s)
  unfolding on_tab
  on_tab-IsWithin s round v h =
      let ((t, stack), e, f) = >>=-eq-ok (analyze_command split s.current_command_input root) _ h in
      let other : (s.prev == 13) ≡ false = rw v.unchanged refl in
      sym (ap (λ (r : Round). r.console) (ok-injective f)) ∙ rw other refl

  on_enter-IsWithin :
      (s : Console) (round : Round)
      → IsWithin s
      → on_enter split root s ≡ ok round
      → IsWithin round.console
  unfolding on_enter
  on_enter-IsWithin s round v h =
      let ((t, stack), e, f) = >>=-eq-ok (analyze_command split s.current_command_input root) _ h in
      subst IsWithin (ap (λ (r : Round). r.console) (ok-injective f))
        (record { within = omega arith; unchanged = v.unchanged })

  -- A round keeps the cursor in the line.
  on_key-IsWithin :
      (key : Key) (s : Console) (round : Round)
      → IsWithin s
      → on_key split root key s ≡ ok round
      → IsWithin round.console
  unfolding on_key
  on_key-IsWithin key s round v h = elim (Bool-cases (key.c == 255)) [
    | inl a ↦ kept s v (rw (a, on_key) at h)
    | inr a ↦ elim (Bool-cases (key.c == 9)) [
      | inl b ↦ subst IsWithin (sym (on_tab-IsWithin s round v (rw (a, b, on_key) at h))) v
      | inr b ↦ elim (Bool-cases (key.c == 13)) [
        | inl c ↦ on_enter-IsWithin s round v (rw (a, b, c, on_key) at h)
        | inr c ↦ elim (Bool-cases (key.c == 127)) [
          | inl d ↦
              let (r, e, w) = on_backspace-IsWithin s v in
              subst (λ (x : Round). IsWithin x.console)
                (ok-injective (sym e ∙ (rw (a, b, c, d, on_key) at h))) w
          | inr d ↦ elim (Bool-cases (key.c == 27)) [
            | inl f ↦
                returned (on_escape (to_esq_sequence key.ch_1 key.ch_2) s)
                  (on_escape-IsWithin (to_esq_sequence key.ch_1 key.ch_2) s v)
                  (rw (a, b, c, d, f, on_key) at h)
            | inr f ↦
                returned (on_character key.c s) (on_character-IsWithin key.c s v)
                  (rw (a, b, c, d, f, on_key) at h)
          ]
        ]
      ]
    ]
  ]
    where
      returned :
          (r : Round)
          → IsWithin r.console
          → ◌≡◌ {A = Result Round} (ok r) (ok round)
          → IsWithin round.console
      returned r w e = subst (λ (x : Round). IsWithin x.console) (ok-injective e) w

      kept :
          (t : Console)
          → IsWithin t
          → ◌≡◌ {A = Result Round}
              (ok (record { console = t; written = []; ran = none }))
              (ok round)
          → IsWithin round.console
      kept t w e = returned (record { console = t; written = []; ran = none }) w e

  -- After any keys from the start, the cursor is in the line or at its end, and `prev` has not changed.
  pub on_keys-IsWithin :
      (keys : List Key) (s s' : Console)
      → IsWithin s
      → on_keys split root keys s ≡ ok s'
      → IsWithin s'
  unfolding on_keys
  on_keys-IsWithin [] s s' v h = subst IsWithin (ok-injective h) v
  on_keys-IsWithin (key ∷ keys) s s' v h =
      let (round, e, f) = >>=-eq-ok (on_key split root key s) _ h in
      on_keys-IsWithin keys round.console s' (on_key-IsWithin key s round v e) f
