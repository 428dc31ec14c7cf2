-- ===== src/CommandLine/Analysis/Soundness.antt =====
-- cli/src/main.cpp: a handler runs with the values of a command that it belongs to.
use klevret.Prelude.{ℕ, ◌≡◌, refl, sym, ap, ◌∙◌, Bool, true, false, inl, inr, subst}
use klevret.Prelude.{
  List, [], ◌∷◌, ◌++◌, reverse, reverse-cons, append_assoc, append-nil, All, Any, Option, some,
  none,
}
use klevret.Prelude.{ok, ◌>>=◌, >>=-eq-ok, ok-injective, if◌then◌else◌}
use klevret.CommandLine.Elements.{
  CommandElement, CommandElementRealValue, CommandHandler, check_command_element,
}
use klevret.Prelude.{◌&&◌, reverse-reverse, ap₂}
use klevret.CommandLine.Elements.{eq_element, element}
use klevret.CommandLine.Elements.Equality.{eq_of_eq_element}
use klevret.CommandLine.Patterns.{Command}
use klevret.CommandLine.Tree.{
  CommandTree, CommandTrees, node, nil, cons, command_element, childs_of, create_command_tree,
}
use klevret.CommandLine.Tree.Index.{eq_path}
use klevret.CommandLine.Tree.Paths.{AnyTree, At, At-create_command_tree}
use klevret.CommandLine.Analysis.{real_value, first_fit, advance_to, analyze_parts, only_handler}

-- The value is what a word that fits the element is read as.
pub record Fits (e : CommandElement) (v : CommandElementRealValue) : Type 0 where
  pub part : List ℕ
  pub accepted : check_command_element part e ≡ ok true
  pub read : real_value e.element_type part ≡ ok v

abbrev pub FitAll : List CommandElement → List CommandElementRealValue → Type 0
FitAll [] [] = Unit
FitAll (e ∷ es) (v ∷ vs) = Fits e v × FitAll es vs
FitAll _ _ = ⊥

-- A child that a word fits, and its value.
Found : CommandTrees → Option (CommandTree × CommandElementRealValue) → Type 1
Found ts none = Unit {1}
Found ts (some (t, v)) =
    Fits (command_element t) v × ((P : CommandTree → Type 0) → P t → AnyTree P ts)

Found-cons :
    (s : CommandTree) (ts : CommandTrees) (fit : Option (CommandTree × CommandElementRealValue))
    → Found ts fit
    → Found (cons s ts) fit
unfolding Found
Found-cons s ts none f = tt
Found-cons s ts (some (t, v)) (f, k) = (f, λ P p. inr (k P p))

first_fit-Found :
    (part : List ℕ) (ts : CommandTrees) (fit : Option (CommandTree × CommandElementRealValue))
    → first_fit part ts ≡ ok fit
    → Found ts fit
unfolding first_fit Found
first_fit-Found part nil fit h = subst (Found nil) (ok-injective h) tt
first_fit-Found part (cons t ts) fit h =
    let (fits, e, k) = >>=-eq-ok (check_command_element part (command_element t)) _ h in
    go fits e k (first_fit-Found part ts fit)
  where
    go :
        (fits : Bool)
        → check_command_element part (command_element t) ≡ ok fits
        → (if fits
            then (do v ← real_value (command_element t).element_type part; ok (some (t, v)))
            else first_fit part ts)
          ≡ ok fit
        → (first_fit part ts ≡ ok fit → Found ts fit)
        → Found (cons t ts) fit
    go true e k ih =
        let (v, f, g) = >>=-eq-ok (real_value (command_element t).element_type part) _ k in
        subst (Found (cons t ts)) (ok-injective g)
          (record { part = part; accepted = e; read = f }, λ P p. inl p)
    go false e k ih = Found-cons t ts fit (ih k)

-- What the words of a line have led to: a path of elements from the node, and their values.
record Led (t : CommandTree) (stack : List CommandElementRealValue) (t' : CommandTree)
    (stack' : List CommandElementRealValue) : Type 0 where
  path : List CommandElement
  values : List CommandElementRealValue
  fit : FitAll path values
  pushed : stack' ≡ reverse values ++ stack
  reached : (h : CommandHandler) → At [] h t' → At path h t

Led-child :
    (current : CommandTree) (stack : List CommandElementRealValue) (t : CommandTree)
    (v : CommandElementRealValue) (t' : CommandTree) (stack' : List CommandElementRealValue)
    → Fits (command_element t) v
    → ((P : CommandTree → Type 0) → P t → AnyTree P (childs_of current))
    → Led t (v ∷ stack) t' stack'
    → Led current stack t' stack'
Led-child (node e ts) stack t v t' stack' f k l = record {
  path = command_element t ∷ l.path;
  values = v ∷ l.values;
  fit = (f, l.fit);
  pushed =
      l.pushed
      ∙ sym (append_assoc (reverse l.values) (v ∷ []) stack)
      ∙ ap (λ x. x ++ stack) (sym (reverse-cons v l.values));
  reached =
      λ h a. k (λ s. (command_element s ≡ command_element t) × At l.path h s) (refl, l.reached h a);
}

analyze_parts-Led :
    (parts : List (List ℕ)) (current : CommandTree) (stack : List CommandElementRealValue)
    (t' : CommandTree) (stack' : List CommandElementRealValue)
    → analyze_parts parts current stack ≡ ok (t', stack')
    → Led current stack t' stack'
unfolding analyze_parts Found
analyze_parts-Led [] current stack t' stack' h =
    let same : ◌≡◌ {A = CommandTree × List CommandElementRealValue} (current, stack) (t', stack') =
      ok-injective h in
    record {
      path = [];
      values = [];
      fit = tt;
      pushed = sym (ap (λ (x : CommandTree × List CommandElementRealValue). x.1) same);
      reached = λ k a.
          subst (At [] k) (sym (ap (λ (x : CommandTree × List CommandElementRealValue). x.0) same))
            a;
    }
analyze_parts-Led (part ∷ parts) current stack t' stack' h =
    let (fit, e, k) = >>=-eq-ok (first_fit part (childs_of current)) _ h in
    go fit (first_fit-Found part (childs_of current) fit e) (
      analyze_parts-Led parts (advance_to current stack fit).0 (advance_to current stack fit).1 t'
        stack' k)
  where
    go :
        (fit : Option (CommandTree × CommandElementRealValue))
        → Found (childs_of current) fit
        → Led (advance_to current stack fit).0 (advance_to current stack fit).1 t' stack'
        → Led current stack t' stack'
    go none f l = l
    go (some (t, v)) (f, k) l = Led-child current stack t v t' stack' f k l

-- An equal element is fitted by the same value.
Fits-eq_element :
    (a b : CommandElement) (v : CommandElementRealValue)
    → eq_element a b ≡ true
    → Fits b v
    → Fits a v
unfolding check_command_element
Fits-eq_element a b v h f =
    let (t, w) = eq_of_eq_element a b h in
    record {
      part = f.part;
      accepted = ap₂ (λ x y. check_command_element f.part (element x y)) t w ∙ f.accepted;
      read = ap (λ x. real_value x f.part) t ∙ f.read;
    }

FitAll-eq_path :
    (es path : List CommandElement) (values : List CommandElementRealValue)
    → eq_path es path ≡ true
    → FitAll path values
    → FitAll es values
FitAll-eq_path [] [] values h f = f
FitAll-eq_path [] (p ∷ path) values h f = absurd (cc)
FitAll-eq_path (e ∷ es) [] values h f = absurd (cc)
FitAll-eq_path (e ∷ es) (p ∷ path) [] h f = elim f [ ]
FitAll-eq_path (e ∷ es) (p ∷ path) (v ∷ values) h (f, fs) =
    let (k, l) = both (eq_element e p) (eq_path es path) h in
    (Fits-eq_element e p v k f, FitAll-eq_path es path values l fs)
  where
    both : (a b : Bool) → (a && b) ≡ true → (a ≡ true) × (b ≡ true)
    both true b h = (refl, h)
    both false b h = absurd (cc)

-- The command that a handler on the stack of values belongs to.
abbrev pub Serves : CommandHandler → List CommandElementRealValue → Command → Type 0
Serves h stack c = (c.handler ≡ h) × FitAll c.elements (reverse stack)

-- A handler that ENTER runs is that of a command of the list, and the values of the stack, from the
-- bottom up, are those of words that fit the elements of that command, one by one.
pub analyze_parts-Serves :
    (commands : List Command) (parts : List (List ℕ)) (t : CommandTree)
    (stack : List CommandElementRealValue) (h : CommandHandler)
    → All (λ c. All (λ e. e.handler ≡ none) c.elements) commands
    → analyze_parts parts (create_command_tree commands) [] ≡ ok (t, stack)
    → only_handler (childs_of t) ≡ some h
    → Any (Serves h stack) commands
analyze_parts-Serves commands parts t stack h v r o =
    let l = analyze_parts-Led parts (create_command_tree commands) [] t stack r in
    let values : l.values ≡ reverse stack =
      sym (reverse-reverse l.values)
      ∙ ap reverse (sym (l.pushed ∙ append-nil (reverse l.values))) in
    serving commands l.path (subst (FitAll l.path) values l.fit)
      (At-create_command_tree commands l.path h v (l.reached h (leaf t o)))
  where
    leaf : (t : CommandTree) → only_handler (childs_of t) ≡ some h → At [] h t
    leaf (node e nil) q = absurd (cc)
    leaf (node e (cons s nil)) q = inl q
    leaf (node e (cons s (cons r ts))) q = absurd (cc)

    serving :
        (commands : List Command) (path : List CommandElement)
        → FitAll path (reverse stack)
        → Any (λ c. (eq_path c.elements path ≡ true) × (c.handler ≡ h)) commands
        → Any (Serves h stack) commands
    serving [] path f a = a
    serving (c ∷ commands) path f (inl (e, k)) =
        inl (k, FitAll-eq_path c.elements path (reverse stack) e f)
    serving (c ∷ commands) path f (inr a) = inr (serving commands path f a)
