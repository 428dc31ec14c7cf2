-- ===== src/CommandLine/Tree/Index.antt =====
-- cli/src/Command.cpp: the tree of the commands is an index of their list.
use klevret.Prelude.{◌≡◌, refl, sym, ap, ◌∙◌, Bool, true, false, ◌&&◌, Bool-cases, inl, inr}
use klevret.Prelude.{
  List, [], ◌∷◌, ◌++◌, append-nil, append_assoc, All, Option, some, none, if◌then◌else◌,
}
use klevret.CommandLine.Elements.{CommandElement, CommandHandler, eq_element, no_element}
use klevret.CommandLine.Elements.Equality.{eq_element_left, eq_element_sym}
use klevret.CommandLine.Patterns.{Command}
use klevret.CommandLine.Tree.{CommandTree, CommandTrees, node, nil, cons, command_element}
use klevret.CommandLine.Tree.{
  push_back, handler_leaf, at_child, add_elements, add_commands, create_command_tree,
}
use klevret.CommandLine.Tree.{add_command_to_tree}

abbrev pub eq_path : List CommandElement → List CommandElement → Bool
eq_path [] [] = true
eq_path (a ∷ xs) (b ∷ ys) = eq_element a b && eq_path xs ys
eq_path _ _ = false

-- The handlers of the leaves among some children.
abbrev pub leaf_handler : Option CommandHandler → List CommandHandler → List CommandHandler
leaf_handler none hs = hs
leaf_handler (some h) hs = h ∷ hs

abbrev pub leaf_handlers : CommandTrees → List CommandHandler
leaf_handlers nil = []
leaf_handlers (cons t ts) = leaf_handler (command_element t).handler (leaf_handlers ts)

-- The handlers that are found by a walk along the elements of a command, to the first child of each.
abbrev pub at_first :
    CommandElement → (CommandTree → List CommandHandler) → CommandTrees → List CommandHandler
at_first p go nil = []
at_first p go (cons t ts) = if eq_element (command_element t) p then go t else at_first p go ts

abbrev pub handlers_at : List CommandElement → CommandTree → List CommandHandler
handlers_at [] (node d ts) = leaf_handlers ts
handlers_at (p ∷ ps) (node d ts) = at_first p (handlers_at ps) ts

-- The handlers of the commands with the given elements, in the order of the list.
abbrev pub registered : List CommandElement → List Command → List CommandHandler
registered path [] = []
registered path (c ∷ commands) =
    (if eq_path c.elements path then c.handler ∷ [] else []) ++ registered path commands

-- An element of a pattern: it has a type, and no handler.
pub record IsPatternElement (e : CommandElement) : Type 0 where
  pub typed : eq_element no_element e ≡ false
  pub unhandled : e.handler ≡ none

handlers_at_empty :
    (path : List CommandElement) (e : CommandElement) → handlers_at path (node e nil) ≡ []
handlers_at_empty [] e = refl
handlers_at_empty (p ∷ ps) e = refl

leaf_handlers-push_back :
    (ts : CommandTrees) (h : CommandHandler)
    → leaf_handlers (push_back ts (handler_leaf h)) ≡ leaf_handlers ts ++ (h ∷ [])
leaf_handlers-push_back nil h = refl
leaf_handlers-push_back (cons t ts) h =
    ap (leaf_handler (command_element t).handler) (leaf_handlers-push_back ts h)
    ∙ shift (command_element t).handler
  where
    shift :
        (o : Option CommandHandler)
        → leaf_handler o (leaf_handlers ts ++ (h ∷ []))
          ≡ leaf_handler o (leaf_handlers ts) ++ (h ∷ [])
    shift none = refl
    shift (some k) = refl

-- A leaf is not found under an element of a pattern.
at_first-push_back :
    (p : CommandElement) (go : CommandTree → List CommandHandler) (ts : CommandTrees)
    (h : CommandHandler)
    → IsPatternElement p
    → at_first p go (push_back ts (handler_leaf h)) ≡ at_first p go ts
unfolding eq_element
at_first-push_back p go nil h v =
    let other : eq_element (command_element (handler_leaf h)) p ≡ false = v.typed in rw other refl
at_first-push_back p go (cons t ts) h v =
    ap (λ x. if eq_element (command_element t) p then go t else x) (at_first-push_back p go ts h v)

pub add_elements-command_element :
    (es : List CommandElement) (h : CommandHandler) (t : CommandTree)
    → command_element (add_elements es h t) ≡ command_element t
unfolding add_elements
add_elements-command_element [] h (node d ts) = refl
add_elements-command_element (e ∷ es) h (node d ts) = refl

-- A new handler below a child is not among the leaves.
leaf_handlers-at_child :
    (e : CommandElement) (go : CommandTree → CommandTree) (ts : CommandTrees)
    → ((t : CommandTree) → command_element (go t) ≡ command_element t)
    → e.handler ≡ none
    → leaf_handlers (at_child e go ts) ≡ leaf_handlers ts
unfolding at_child
leaf_handlers-at_child e go nil k n = rw (k (node e nil), n) refl
leaf_handlers-at_child e go (cons t ts) k n = elim (Bool-cases (eq_element (command_element t) e)) [
  | inl f ↦ rw (f, k t) refl
  | inr f ↦
      rw f (ap (leaf_handler (command_element t).handler) (leaf_handlers-at_child e go ts k n))
]

-- What is found after a child has changed.
at_first-at_child :
    (e p : CommandElement) (change : CommandTree → CommandTree)
    (go : CommandTree → List CommandHandler) (extra : List CommandHandler) (ts : CommandTrees)
    → ((t : CommandTree) → command_element (change t) ≡ command_element t)
    → ((t : CommandTree) → go (change t) ≡ go t ++ extra)
    → go (node e nil) ≡ []
    → at_first p go (at_child e change ts)
      ≡ at_first p go ts ++ (if eq_element e p then extra else [])
unfolding at_child
at_first-at_child e p change go extra nil k g n = elim (Bool-cases (eq_element e p)) [
  | inl f ↦ rw (k (node e nil), f, g (node e nil), n) refl
  | inr f ↦ rw (k (node e nil), f) refl
]
at_first-at_child e p change go extra (cons t ts) k g n =
    elim (Bool-cases (eq_element (command_element t) e)) [
      | inl f ↦ elim (Bool-cases (eq_element (command_element t) p)) [
        | inl d ↦ rw (f, k t, d, sym (eq_element_left (command_element t) e p f) ∙ d, g t) refl
        | inr d ↦
            rw (f, k t, d, sym (eq_element_left (command_element t) e p f) ∙ d)
              (sym (append-nil (at_first p go ts)))
      ]
      | inr f ↦ elim (Bool-cases (eq_element (command_element t) p)) [
        | inl d ↦ rw (f, d, apart f d) (sym (append-nil (go t)))
        | inr d ↦ rw (f, d) (at_first-at_child e p change go extra ts k g n)
      ]
    ]
  where
    apart :
        eq_element (command_element t) e ≡ false
        → eq_element (command_element t) p ≡ true
        → eq_element e p ≡ false
    apart f d = elim (Bool-cases (eq_element e p)) [
      | inl h ↦
          absurd (
            true≢false (sym (eq_element_left (command_element t) p e d ∙ eq_element_sym e p h) ∙ f))
      | inr h ↦ h
    ]
      where
        true≢false : true ≡ false → ⊥
        true≢false h = cc

-- A command that is added is found under its own elements, behind the commands before it, and nothing
-- else changes.
handlers_at-add_elements :
    (es path : List CommandElement) (h : CommandHandler) (t : CommandTree)
    → All IsPatternElement es
    → All IsPatternElement path
    → handlers_at path (add_elements es h t)
      ≡ handlers_at path t ++ (if eq_path es path then h ∷ [] else [])
unfolding add_elements
handlers_at-add_elements [] [] h (node d ts) v w = leaf_handlers-push_back ts h
handlers_at-add_elements [] (p ∷ ps) h (node d ts) v (w, ws) =
    at_first-push_back p (handlers_at ps) ts h w ∙ sym (append-nil (at_first p (handlers_at ps) ts))
handlers_at-add_elements (e ∷ es) [] h (node d ts) (v, vs) w =
    leaf_handlers-at_child e (add_elements es h) ts (add_elements-command_element es h) v.unhandled
    ∙ sym (append-nil (leaf_handlers ts))
handlers_at-add_elements (e ∷ es) (p ∷ ps) h (node d ts) (v, vs) (w, ws) =
    at_first-at_child e p (add_elements es h) (handlers_at ps)
      (if eq_path es ps then h ∷ [] else []) ts (add_elements-command_element es h)
      (λ t. handlers_at-add_elements es ps h t vs ws) (handlers_at_empty ps e)
    ∙ ap (λ x. at_first p (handlers_at ps) ts ++ x) (both (eq_element e p) (eq_path es ps))
  where
    both :
        (a b : Bool)
        → ◌≡◌ {A = List CommandHandler}
            (if a then if b then h ∷ [] else [] else [])
            (if a && b then h ∷ [] else [])
    both true b = refl
    both false b = refl

handlers_at-add_commands :
    (tree : CommandTree) (commands : List Command) (path : List CommandElement)
    → All (λ c. All IsPatternElement c.elements) commands
    → All IsPatternElement path
    → handlers_at path (add_commands tree commands)
      ≡ handlers_at path tree ++ registered path commands
unfolding add_commands
handlers_at-add_commands tree [] path v w = sym (append-nil (handlers_at path tree))
handlers_at-add_commands tree (c ∷ commands) path (v, vs) w =
    handlers_at-add_commands (add_command_to_tree tree c) commands path vs w
    ∙ ap (λ x. x ++ registered path commands)
        (handlers_at-add_elements c.elements path c.handler tree v w)
    ∙ append_assoc (handlers_at path tree) _ (registered path commands)

-- The tree of a list of commands is an index of the list: a walk along any elements of patterns finds
-- the handlers of the commands with these elements, in the order of the list, and no others.
pub handlers_at-create_command_tree :
    (commands : List Command) (path : List CommandElement)
    → All (λ c. All IsPatternElement c.elements) commands
    → All IsPatternElement path
    → handlers_at path (create_command_tree commands) ≡ registered path commands
handlers_at-create_command_tree commands path v w =
    handlers_at-add_commands (node no_element nil) commands path v w
    ∙ ap (λ x. x ++ registered path commands) (handlers_at_empty path no_element)
