-- ===== src/CommandLine/Tree.antt =====
-- cli/src/Command.cpp: the tree of the commands. A pointer into the tree is the subtree that it points
-- to; what is changed through it is rebuilt on the way down.
pub mod Index
pub mod Paths
use klevret.Prelude.{Bool, List, [], ◌∷◌, if◌then◌else◌, some}
use klevret.CommandLine.Elements.{CommandElement, CommandHandler, eq_element, no_element}
use klevret.CommandLine.Patterns.{Command}

mutual
  pub data CommandTree : Type 0 where
    node : CommandElement → CommandTrees → CommandTree

  -- `std::vector<CommandTree>`
  pub data CommandTrees : Type 0 where
    nil : CommandTrees
    cons : CommandTree → CommandTrees → CommandTrees

abbrev pub command_element : CommandTree → CommandElement
command_element (node e childs) = e

abbrev pub childs_of : CommandTree → CommandTrees
childs_of (node e childs) = childs

abbrev pub push_back : CommandTrees → CommandTree → CommandTrees
push_back nil t = cons t nil
push_back (cons s ts) t = cons s (push_back ts t)

-- The leaf that holds the handler of a command.
abbrev pub handler_leaf : CommandHandler → CommandTree
handler_leaf h = node (record no_element { handler = some h }) nil

-- The search of an element among the children, which adds a new child where it fails, and what is done
-- at the child.
unfoldable pub at_child : CommandElement → (CommandTree → CommandTree) → CommandTrees → CommandTrees
at_child e go nil = cons (go (node e nil)) nil
at_child e go (cons t ts) =
    if eq_element (command_element t) e then cons (go t) ts else cons t (at_child e go ts)

unfoldable pub add_elements : List CommandElement → CommandHandler → CommandTree → CommandTree
add_elements [] h (node d ts) = node d (push_back ts (handler_leaf h))
add_elements (e ∷ es) h (node d ts) = node d (at_child e (add_elements es h) ts)

abbrev pub add_command_to_tree : CommandTree → Command → CommandTree
add_command_to_tree root command = add_elements command.elements command.handler root

-- The loop of `create_command_tree`, and the call.
unfoldable pub add_commands : CommandTree → List Command → CommandTree
add_commands tree [] = tree
add_commands tree (command ∷ commands) = add_commands (add_command_to_tree tree command) commands

abbrev pub create_command_tree : List Command → CommandTree
create_command_tree commands = add_commands (node no_element nil) commands
