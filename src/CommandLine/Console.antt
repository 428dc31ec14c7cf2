-- ===== src/CommandLine/Console.antt =====
-- cli/src/main.cpp, the loop of `main`, and Console.cpp: what a key does to the line that is typed. The
-- calls that set up the terminal and read a key are left out; a key is a byte, 255 where there is none.
pub mod Cursor
pub mod Backspace
use klevret.Prelude.{ℕ, zero, suc, ◌+◌, ◌-◌, ◌==◌, ltb, not, if◌then◌else◌, Bool, true, false}
use klevret.Prelude.{
  List, [], ◌∷◌, ◌++◌, length, take, drop, text, Option, some, none, throw_if, out_of_range,
}
use klevret.Prelude.{Result, ok, ◌>>=◌, ◌>>◌}
use klevret.CommandLine.Elements.{CommandElementRealValue, CommandHandler, to_string}
use klevret.CommandLine.Tree.{CommandTree, CommandTrees, nil, cons, command_element, childs_of}
use klevret.CommandLine.Analysis.{analyze_command, only_handler}

-- What is written to the terminal. The title is `print_title`.
pub data ConsoleWrite : Type 0 where
  cursor_left : ℕ → ConsoleWrite
  clear_line : ConsoleWrite
  characters : List ℕ → ConsoleWrite
  title : ConsoleWrite

-- The members of `Console` and the variable `prev` of `main`.
pub record Console : Type 0 where
  pub current_command_input : List ℕ
  pub current_command_input_cursor_pos : ℕ
  pub prev : ℕ

abbrev pub start : Console
start = record { current_command_input = []; current_command_input_cursor_pos = 0; prev = 0 }

abbrev pub move_cursor_to_left : ℕ → List ConsoleWrite
move_cursor_to_left number = if number == 0 then [] else cursor_left number ∷ []

abbrev pub write_str : List ℕ → List ConsoleWrite
write_str [] = []
write_str (c ∷ str) = characters (c ∷ str) ∷ []

pub data EscSequence : Type 0 where
  arrow_left : EscSequence
  arrow_right : EscSequence
  unknown : EscSequence

abbrev pub to_esq_sequence : ℕ → ℕ → EscSequence
to_esq_sequence ch_1 ch_2 =
    if ch_1 == 91
    then (if ch_2 == 68 then arrow_left else if ch_2 == 67 then arrow_right else unknown)
    else unknown

-- A key, and the two that an escape sequence reads behind it.
pub record Key : Type 0 where
  pub c : ℕ
  pub ch_1 : ℕ
  pub ch_2 : ℕ

-- What a round does: the console, what is written, and the handler that runs with its stack.
pub record Round : Type 0 where
  pub console : Console
  pub written : List ConsoleWrite
  pub ran : Option (CommandHandler × List CommandElementRealValue)

-- `erase(pos, 1)`
abbrev pub erase : ℕ → List ℕ → Result (List ℕ)
erase pos str = do
  throw_if (ltb (length str) pos) out_of_range
  ok (take pos str ++ drop (suc pos) str)

-- The line is written anew, and the cursor goes back to its place in it.
abbrev pub rewritten : ℕ → Console → Console → List ConsoleWrite
rewritten back before after =
    move_cursor_to_left (before.current_command_input_cursor_pos + back)
    ++ (clear_line
        ∷ (write_str after.current_command_input
            ++ move_cursor_to_left
                (length after.current_command_input - after.current_command_input_cursor_pos)))

unfoldable pub on_backspace : Console → Result Round
on_backspace s =
    if s.current_command_input_cursor_pos == 0
    then ok (record {
      console = s;
      written =
          move_cursor_to_left (s.current_command_input_cursor_pos + 2)
          ++ (clear_line
              ∷ move_cursor_to_left
                  (length s.current_command_input - s.current_command_input_cursor_pos));
      ran = none;
    })
    else (do
      input ← erase (s.current_command_input_cursor_pos - 1) s.current_command_input
      let s' = record s {
        current_command_input = input;
        current_command_input_cursor_pos = s.current_command_input_cursor_pos - 1;
      }
      ok (record { console = s'; written = rewritten 2 s s'; ran = none }))

abbrev pub on_character : ℕ → Console → Round
on_character c s = record {
  console = record s {
    current_command_input = s.current_command_input ++ (c ∷ []);
    current_command_input_cursor_pos = suc s.current_command_input_cursor_pos;
  };
  written = [];
  ran = none;
}

abbrev pub after_arrow : EscSequence → Console → Console
after_arrow arrow_left s =
    if s.current_command_input_cursor_pos == 0
    then s
    else record s { current_command_input_cursor_pos = s.current_command_input_cursor_pos - 1 }
after_arrow arrow_right s =
    if ltb s.current_command_input_cursor_pos (length s.current_command_input)
    then record s { current_command_input_cursor_pos = suc s.current_command_input_cursor_pos }
    else s
after_arrow unknown s = s

abbrev pub on_escape : EscSequence → Console → Round
on_escape unknown s = record { console = s; written = []; ran = none }
on_escape arrow_left s = record {
  console = after_arrow arrow_left s;
  written = rewritten 4 s (after_arrow arrow_left s);
  ran = none;
}
on_escape arrow_right s = record {
  console = after_arrow arrow_right s;
  written = rewritten 4 s (after_arrow arrow_right s);
  ran = none;
}

-- The names of the children, each on a line.
abbrev pub hints : CommandTrees → List ConsoleWrite
hints nil = []
hints (cons t ts) = characters (to_string (command_element t) ++ (10 ∷ [])) ∷ hints ts

-- The key sequences of nine arrows, which are added to the line where `prev` is ENTER.
abbrev pub arrows : ℕ → List ℕ
arrows zero = []
arrows (suc k) = 27 ∷ 91 ∷ 67 ∷ arrows k

module _ (split : List ℕ → List (List ℕ)) (root : CommandTree) where
  unfoldable pub on_tab : Console → Result Round
  on_tab s = do
    (t, stack) ← analyze_command split s.current_command_input root
    let s' = record s {
      current_command_input =
          if s.prev == 13 then s.current_command_input ++ arrows 9 else s.current_command_input;
    }
    ok (record {
      console = s';
      written =
          cursor_left 1
          ∷ clear_line
          ∷ characters (10 ∷ [])
          ∷ (hints (childs_of t)
              ++ (characters (13 ∷ []) ∷ title ∷ write_str s'.current_command_input));
      ran = none;
    })

  abbrev pub with_stack :
      Option CommandHandler
      → List CommandElementRealValue
      → Option (CommandHandler × List CommandElementRealValue)
  with_stack none stack = none
  with_stack (some h) stack = some (h, stack)

  unfoldable pub on_enter : Console → Result Round
  on_enter s = do
    (t, stack) ← analyze_command split s.current_command_input root
    ok (record {
      console = record s { current_command_input = []; current_command_input_cursor_pos = 0 };
      written = cursor_left 2 ∷ clear_line ∷ characters (10 ∷ []) ∷ title ∷ [];
      ran = with_stack (only_handler (childs_of t)) stack;
    })

  -- A round of the loop of `main`.
  unfoldable pub on_key : Key → Console → Result Round
  on_key key s =
      if key.c == 255
      then ok (record { console = s; written = []; ran = none })
      else if key.c == 9
      then on_tab s
      else if key.c == 13
      then on_enter s
      else if key.c == 127
      then on_backspace s
      else if key.c == 27
      then ok (on_escape (to_esq_sequence key.ch_1 key.ch_2) s)
      else ok (on_character key.c s)

  -- Rounds, one after the other.
  unfoldable pub on_keys : List Key → Console → Result Console
  on_keys [] s = ok s
  on_keys (key ∷ keys) s = do round ← on_key key s; on_keys keys round.console
