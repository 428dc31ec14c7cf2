-- ===== src/CommandLine/Analysis.antt =====
-- cli/src/main.cpp: the analysis of a line against the tree of the commands, and the printed tree.
-- `boost::algorithm::split` is the parameter `split`: the parts of a line between its spaces.
pub mod Soundness
pub mod Table
use klevret.Prelude.{
  ℕ, zero, suc, Bool, List, [], ◌∷◌, ◌++◌, Option, some, none, text, if◌then◌else◌,
}
use klevret.Prelude.{Result, ok, ◌>>=◌}
use klevret.CommandLine.Addresses.{of_string}
use klevret.CommandLine.Elements.{
  CommandElement, CommandElementType, CommandElementRealValue, CommandHandler,
}
use klevret.CommandLine.Elements.{of_word, of_ip_v4_address, of_ip_v6_address, of_ip_v4_subnet_mask}
use klevret.CommandLine.Elements.{of_ip_v6_subnet_mask, check_command_element, to_string}
use klevret.CommandLine.Tree.{
  CommandTree, CommandTrees, node, nil, cons, command_element, childs_of,
}

-- `print_tree(root, tab)`, as the text that it writes.
abbrev pub dashes : ℕ → List ℕ
dashes zero = []
dashes (suc tab) = text "--" ++ dashes tab

abbrev pub print_node : ℕ → CommandElement → Option CommandHandler → List ℕ
print_node tab e none = dashes tab ++ (to_string e ++ (10 ∷ []))
print_node tab e (some h) = []

unfoldable mutual
  pub print_tree : ℕ → CommandTree → List ℕ
  print_tree tab (node e ts) = print_trees tab ts

  pub print_trees : ℕ → CommandTrees → List ℕ
  print_trees tab nil = []
  print_trees tab (cons t ts) =
      print_node tab (command_element t) (command_element t).handler
      ++ (print_tree (suc tab) t ++ print_trees tab ts)

-- What is pushed for a word that fits an element.
abbrev pub real_value : CommandElementType → List ℕ → Result CommandElementRealValue
real_value CommandElementType.ip_v4_address part = do a ← of_string part; ok (of_ip_v4_address a)
real_value CommandElementType.ip_v6_address part = ok of_ip_v6_address
real_value CommandElementType.ip_v4_subnet_mask part = ok of_ip_v4_subnet_mask
real_value CommandElementType.ip_v6_subnet_mask part = ok of_ip_v6_subnet_mask
real_value CommandElementType.none part = ok (of_word part)
real_value CommandElementType.fixed_word part = ok (of_word part)
real_value CommandElementType.string part = ok (of_word part)
real_value CommandElementType.name part = ok (of_word part)

-- The first child that a word fits, and the value that is pushed.
unfoldable pub first_fit :
    List ℕ → CommandTrees → Result (Option (CommandTree × CommandElementRealValue))
first_fit part nil = ok none
first_fit part (cons t ts) = do
  fits ← check_command_element part (command_element t)
  if fits
      then (do v ← real_value (command_element t).element_type part; ok (some (t, v)))
      else first_fit part ts

-- `current` and `stack` after a word: a word that fits no child changes neither.
abbrev pub advance_to :
    CommandTree
    → List CommandElementRealValue
    → Option (CommandTree × CommandElementRealValue)
    → CommandTree × List CommandElementRealValue
advance_to current stack none = (current, stack)
advance_to current stack (some (t, v)) = (t, v ∷ stack)

-- The loop over the parts; the top of the stack comes first.
unfoldable pub analyze_parts :
    List (List ℕ)
    → CommandTree
    → List CommandElementRealValue
    → Result (CommandTree × List CommandElementRealValue)
analyze_parts [] current stack = ok (current, stack)
analyze_parts (part ∷ parts) current stack = do
  fit ← first_fit part (childs_of current)
  analyze_parts parts (advance_to current stack fit).0 (advance_to current stack fit).1

module _ (split : List ℕ → List (List ℕ)) where
  abbrev pub analyze_command :
      List ℕ → CommandTree → Result (CommandTree × List CommandElementRealValue)
  analyze_command command root = analyze_parts (split command) root []

-- The test of `main` after ENTER: the only child of the node holds a handler.
abbrev pub only_handler : CommandTrees → Option CommandHandler
only_handler nil = none
only_handler (cons t nil) = (command_element t).handler
only_handler (cons t (cons s ts)) = none
