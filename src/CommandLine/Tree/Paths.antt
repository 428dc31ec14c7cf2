-- ===== src/CommandLine/Tree/Paths.antt =====
-- cli/src/Command.cpp: every handler in the tree comes from a command.
use klevret.Prelude.{◌≡◌, ◌⊎◌, refl, sym, ap, ◌∙◌, true, false, Bool-cases, inl, inr}
use klevret.Prelude.{List, [], ◌∷◌, All, Any, Option, some, none, eq_of_some}
use klevret.CommandLine.Elements.{CommandElement, CommandHandler, eq_element, no_element}
use klevret.CommandLine.Patterns.{Command}
use klevret.CommandLine.Tree.{CommandTree, CommandTrees, node, nil, cons, command_element}
use klevret.CommandLine.Tree.{push_back, handler_leaf, at_child, add_elements, add_commands}
use klevret.CommandLine.Tree.{add_command_to_tree, create_command_tree}
use klevret.CommandLine.Elements.Equality.{eq_element_refl, eq_element_sym}
use klevret.CommandLine.Tree.Index.{eq_path}
use klevret.CommandLine.Tree.Index.{add_elements-command_element}

-- One of some children.
abbrev pub AnyTree : (CommandTree → Type 0) → CommandTrees → Type 0
AnyTree P nil = ⊥
AnyTree P (cons t ts) = P t ⊎ AnyTree P ts

-- The handler is in a leaf at the end of the path.
abbrev pub At : List CommandElement → CommandHandler → CommandTree → Type 0
At [] h (node d ts) = AnyTree (λ t. (command_element t).handler ≡ some h) ts
At (p ∷ ps) h (node d ts) = AnyTree (λ t. (command_element t ≡ p) × At ps h t) ts

At-empty :
    (path : List CommandElement) (h : CommandHandler) (e : CommandElement)
    → At path h (node e nil)
    → ⊥
At-empty [] h e a = a
At-empty (p ∷ ps) h e a = a

AnyTree-push_back :
    (P : CommandTree → Type 0) (ts : CommandTrees) (t : CommandTree)
    → AnyTree P (push_back ts t)
    → AnyTree P ts ⊎ P t
AnyTree-push_back P nil t (inl a) = inr a
AnyTree-push_back P nil t (inr a) = elim a [ ]
AnyTree-push_back P (cons s ts) t (inl a) = inl (inl a)
AnyTree-push_back P (cons s ts) t (inr a) = elim (AnyTree-push_back P ts t a) [
  | inl b ↦ inl (inr b)
  | inr b ↦ inr b
]

-- What holds of a child after a change held of one before it, or it was the change that made it true.
AnyTree-at_child :
    (P : CommandTree → Type 0) (Q : Type 0) (e : CommandElement)
    (change : CommandTree → CommandTree) (ts : CommandTrees)
    → ((t : CommandTree) → eq_element (command_element t) e ≡ true → P (change t) → P t ⊎ Q)
    → (P (node e nil) → Q)
    → AnyTree P (at_child e change ts)
    → AnyTree P ts ⊎ Q
unfolding at_child
AnyTree-at_child P Q e change nil k n (inl a) = elim (k (node e nil) (eq_element_refl e) a) [
  | inl b ↦ inr (n b)
  | inr b ↦ inr b
]
AnyTree-at_child P Q e change nil k n (inr a) = elim a [ ]
AnyTree-at_child P Q e change (cons t ts) k n a =
    elim (Bool-cases (eq_element (command_element t) e)) [
      | inl f ↦ elim (changed f a) [
        | inl b ↦ elim (k t f b) [ inl c ↦ inl (inl c) | inr c ↦ inr c ]
        | inr b ↦ inl (inr b)
      ]
      | inr f ↦ elim (kept f a) [
        | inl b ↦ inl (inl b)
        | inr b ↦ elim (AnyTree-at_child P Q e change ts k n b) [
          | inl c ↦ inl (inr c)
          | inr c ↦ inr c
        ]
      ]
    ]
  where
    changed :
        eq_element (command_element t) e ≡ true
        → AnyTree P (at_child e change (cons t ts))
        → P (change t) ⊎ AnyTree P ts
    changed f b = rw (f, at_child) at b

    kept :
        eq_element (command_element t) e ≡ false
        → AnyTree P (at_child e change (cons t ts))
        → P t ⊎ AnyTree P (at_child e change ts)
    kept f b = rw (f, at_child) at b

-- A handler in a tree with a new command was in the tree, or it is that of the command.
At-add_elements :
    (es path : List CommandElement) (h k : CommandHandler) (t : CommandTree)
    → All (λ e. e.handler ≡ none) es
    → At path k (add_elements es h t)
    → At path k t ⊎ ((eq_path es path ≡ true) × (h ≡ k))
unfolding add_elements
At-add_elements [] [] h k (node d ts) v a = elim (AnyTree-push_back _ ts (handler_leaf h) a) [
  | inl b ↦ inl b
  | inr b ↦ inr (refl, eq_of_some b)
]
At-add_elements [] (p ∷ ps) h k (node d ts) v a = elim (AnyTree-push_back _ ts (handler_leaf h) a) [
  | inl b ↦ inl b
  | inr (_, b) ↦ absurd (At-empty ps k _ b)
]
At-add_elements (e ∷ es) [] h k (node d ts) (v, vs) a = elim found [
  | inl b ↦ inl b
  | inr b ↦ absurd b
]
  where
    none≢some : ◌≡◌ {A = Option CommandHandler} none (some k) → ⊥
    none≢some q = cc

    found : AnyTree (λ t. (command_element t).handler ≡ some k) ts ⊎ ⊥
    found =
        AnyTree-at_child (λ t. (command_element t).handler ≡ some k) ⊥ e (add_elements es h) ts
          (λ t f b. inl (
            ap (λ (x : CommandElement). x.handler) (sym (add_elements-command_element es h t)) ∙ b))
          (λ b. none≢some (sym v ∙ b)) a
At-add_elements (e ∷ es) (p ∷ ps) h k (node d ts) (v, vs) a =
    AnyTree-at_child (λ t. (command_element t ≡ p) × At ps k t)
      ((eq_path (e ∷ es) (p ∷ ps) ≡ true) × (h ≡ k)) e (add_elements es h) ts
      (below (At-add_elements es ps h k)) (λ b. absurd (At-empty ps k e b.1)) a
  where
    below :
        ((t : CommandTree)
          → All (λ x. x.handler ≡ none) es
          → At ps k (add_elements es h t)
          → At ps k t ⊎ ((eq_path es ps ≡ true) × (h ≡ k)))
        → (t : CommandTree) → eq_element (command_element t) e ≡ true
        → (command_element (add_elements es h t) ≡ p) × At ps k (add_elements es h t)
        → ((command_element t ≡ p) × At ps k t) ⊎ ((eq_path (e ∷ es) (p ∷ ps) ≡ true) × (h ≡ k))
    below ih t f (s, b) = elim (ih t vs b) [
      | inl c ↦ inl (sym (add_elements-command_element es h t) ∙ s, c)
      | inr (c, q) ↦
          let same : eq_element e p ≡ true =
            ap (eq_element e) (sym s ∙ add_elements-command_element es h t)
            ∙ eq_element_sym (command_element t) e f in
          inr (rw (same, c) refl, q)
    ]

-- Every handler in the tree of a list of commands is that of a command with the elements of its path.
pub At-add_commands :
    (tree : CommandTree) (commands : List Command) (path : List CommandElement) (h : CommandHandler)
    → All (λ c. All (λ e. e.handler ≡ none) c.elements) commands
    → At path h (add_commands tree commands)
    → At path h tree ⊎ Any (λ c. (eq_path c.elements path ≡ true) × (c.handler ≡ h)) commands
unfolding add_commands
At-add_commands tree [] path h v a = inl a
At-add_commands tree (c ∷ commands) path h (v, vs) a =
    elim (At-add_commands (add_command_to_tree tree c) commands path h vs a) [
      | inl b ↦ elim (At-add_elements c.elements path c.handler h tree v b) [
        | inl d ↦ inl d
        | inr d ↦ inr (inl d)
      ]
      | inr b ↦ inr (inr b)
    ]

pub At-create_command_tree :
    (commands : List Command) (path : List CommandElement) (h : CommandHandler)
    → All (λ c. All (λ e. e.handler ≡ none) c.elements) commands
    → At path h (create_command_tree commands)
    → Any (λ c. (eq_path c.elements path ≡ true) × (c.handler ≡ h)) commands
At-create_command_tree commands path h v a =
    elim (At-add_commands (node no_element nil) commands path h v a) [
      | inl b ↦ absurd (At-empty path h no_element b)
      | inr b ↦ b
    ]
