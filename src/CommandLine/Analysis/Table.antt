-- ===== src/CommandLine/Analysis/Table.antt =====
-- cli/src/Command.cpp and main.cpp: the tree of a table of patterns, as it is built and as it is walked.
use klevret.Prelude.{◌≡◌, List, [], ◌∷◌, All, Any, some, none, ok, >>=-eq-ok}
use klevret.Prelude.{ℕ, ok-injective, subst}
use klevret.CommandLine.Elements.{CommandElement, CommandElementRealValue, CommandHandler}
use klevret.CommandLine.Patterns.{KlevretComponent, Command, make_command, make_commands}
use klevret.CommandLine.Patterns.Typed.{make_command-IsPatternElement}
use klevret.CommandLine.Tree.{CommandTree, childs_of, create_command_tree}
use klevret.CommandLine.Tree.Index.{
  IsPatternElement, handlers_at, registered, handlers_at-create_command_tree,
}
use klevret.CommandLine.Analysis.{analyze_parts, only_handler}
use klevret.CommandLine.Analysis.Soundness.{Serves, analyze_parts-Serves}

make_commands-IsPatternElement :
    (entries : List (KlevretComponent × List ℕ × CommandHandler)) (commands : List Command)
    → make_commands entries ≡ ok commands
    → All (λ c. All IsPatternElement c.elements) commands
unfolding make_commands
make_commands-IsPatternElement [] commands h = subst (All _) (ok-injective h) tt
make_commands-IsPatternElement ((component, pattern, handler) ∷ entries) commands h =
    let (c, e, f) = >>=-eq-ok (make_command component pattern handler) _ h in
    let (cs, g, k) = >>=-eq-ok (make_commands entries) _ f in
    subst (All (λ (x : Command). All IsPatternElement x.elements)) (ok-injective k) (
      (make_command-IsPatternElement component pattern handler c e).0,
      make_commands-IsPatternElement entries cs g,
    )

-- The tree of the commands of any table of patterns is an index of them: a walk along elements of
-- patterns finds the handlers of the commands with these elements, in the order of the table, and no
-- others.
pub handlers_at-make_commands :
    (entries : List (KlevretComponent × List ℕ × CommandHandler)) (commands : List Command)
    (path : List CommandElement)
    → make_commands entries ≡ ok commands
    → All IsPatternElement path
    → handlers_at path (create_command_tree commands) ≡ registered path commands
handlers_at-make_commands entries commands path h v =
    handlers_at-create_command_tree commands path
      (make_commands-IsPatternElement entries commands h) v

All-unhandled :
    (es : List CommandElement) → All IsPatternElement es → All (λ e. e.handler ≡ none) es
All-unhandled [] v = tt
All-unhandled (e ∷ es) (v, vs) = (v.unhandled, All-unhandled es vs)

unhandled :
    (commands : List Command)
    → All (λ c. All IsPatternElement c.elements) commands
    → All (λ c. All (λ e. e.handler ≡ none) c.elements) commands
unhandled [] v = tt
unhandled (c ∷ commands) (v, vs) = (All-unhandled c.elements v, unhandled commands vs)

-- A handler that ENTER runs on the tree of any table of patterns is that of one of its commands, and the
-- values of the stack, from the bottom up, are those of words that fit the elements of that command, one
-- by one.
pub analyze_parts-make_commands :
    (entries : List (KlevretComponent × List ℕ × CommandHandler)) (commands : List Command)
    (parts : List (List ℕ)) (t : CommandTree) (stack : List CommandElementRealValue)
    (h : CommandHandler)
    → make_commands entries ≡ ok commands
    → analyze_parts parts (create_command_tree commands) [] ≡ ok (t, stack)
    → only_handler (childs_of t) ≡ some h
    → Any (Serves h stack) commands
analyze_parts-make_commands entries commands parts t stack h m =
    analyze_parts-Serves commands parts t stack h
      (unhandled commands (make_commands-IsPatternElement entries commands m))
