-- ===== src/CommandLine/Handlers/Safety.antt =====
-- cli/src/main.cpp and command_handlers.cpp: no handler that a line runs throws.
use klevret.Prelude.{ℕ, ◌≡◌, refl, sym, inl, inr, List, [], ◌∷◌, reverse, reverse-reverse, Any, All}
use klevret.Prelude.{Option, some, none, ok, >>=-eq-ok, ok-injective, subst, text}
use klevret.IpAddress.{Ipv4Address}
use klevret.Json.{Json}
use klevret.CommandLine.Addresses.{of_string}
use klevret.CommandLine.Elements.{
  CommandElement, CommandElementType, CommandElementRealValue, element,
}
use klevret.CommandLine.Elements.{of_ip_v4_address, CommandHandler}
use klevret.CommandLine.Elements.{
  cmd_version, blank, cmd_ip_address_ipv4, cmd_dhcp_pool_create, cmd_dhcp_pool_list,
}
use klevret.CommandLine.Patterns.{
  KlevretComponent, Command, all_commands, make_commands, make_command, parse_pattern,
}
use klevret.CommandLine.Patterns.{parse_pattern_element, parse_fixed_word, parse_variable_element}
use klevret.WrapperForParsing.{read_while}
use klevret.CommandLine.Tree.{CommandTree, childs_of, create_command_tree}
use klevret.CommandLine.Analysis.{analyze_parts, only_handler}
use klevret.CommandLine.Analysis.Soundness.{Fits, FitAll, Serves, analyze_parts-Serves}
use klevret.CommandLine.Handlers.{request_ip_address, request_pool_create, run_handler}

abbrev pub fixed : List ℕ → CommandElement
fixed w = element CommandElementType.fixed_word w

abbrev pub ip_v4 : CommandElement
ip_v4 = element CommandElementType.ip_v4_address []

abbrev pub entry : KlevretComponent → List CommandElement → CommandHandler → Command
entry component es h = record { klevret_component = component; elements = es; handler = h }

-- The commands of the table.
abbrev pub commands : List Command
commands =
    entry KlevretComponent.cli (fixed (text "version") ∷ []) cmd_version
    ∷ entry KlevretComponent.dhcp (fixed (text "ip") ∷ fixed (text "show") ∷ []) blank
    ∷ entry KlevretComponent.dhcp
        (fixed (text "ip") ∷ fixed (text "address") ∷ fixed (text "show") ∷ []) blank
    ∷ entry KlevretComponent.dhcp (fixed (text "ip") ∷ fixed (text "address") ∷ ip_v4 ∷ [])
        cmd_ip_address_ipv4
    ∷ entry KlevretComponent.dhcp
        (fixed (text "dhcp") ∷ fixed (text "pool") ∷ fixed (text "create") ∷ ip_v4 ∷ ip_v4 ∷ [])
        cmd_dhcp_pool_create
    ∷ entry KlevretComponent.dhcp
        (fixed (text "dhcp") ∷ fixed (text "pool") ∷ fixed (text "list") ∷ []) cmd_dhcp_pool_list
    ∷ []

pub all_commands_eq : all_commands ≡ ok commands
unfolding all_commands make_commands make_command parse_pattern parse_pattern_element
    parse_fixed_word parse_variable_element read_while
all_commands_eq = refl

Fits-ip_v4 :
    (v : CommandElementRealValue) → Fits ip_v4 v → (a : Ipv4Address) × (v ≡ of_ip_v4_address a)
Fits-ip_v4 v f = let (a, e, g) = >>=-eq-ok (of_string f.part) _ f.read in (a, sym (ok-injective g))

module _ (json : Json) where
  Runs : CommandHandler → List CommandElementRealValue → Type 0
  Runs h stack = (request : Option json.Ptree) × (run_handler json h stack ≡ ok request)

  Runs-ip_address :
      (e f : CommandElement) (values : List CommandElementRealValue)
      → FitAll (e ∷ f ∷ ip_v4 ∷ []) values
      → Runs cmd_ip_address_ipv4 (reverse values)
  unfolding Runs run_handler request_ip_address
  Runs-ip_address e f (u ∷ v ∷ w ∷ []) (_, (_, (k, _))) =
      let (a, q) = Fits-ip_v4 w k in rw q (_, refl)
  Runs-ip_address e f [] k = elim k [ ]
  Runs-ip_address e f (u ∷ []) k = elim k.1 [ ]
  Runs-ip_address e f (u ∷ v ∷ []) k = elim k.1.1 [ ]
  Runs-ip_address e f (u ∷ v ∷ w ∷ x ∷ r) k = elim k.1.1.1 [ ]

  Runs-pool_create :
      (e f g : CommandElement) (values : List CommandElementRealValue)
      → FitAll (e ∷ f ∷ g ∷ ip_v4 ∷ ip_v4 ∷ []) values
      → Runs cmd_dhcp_pool_create (reverse values)
  unfolding Runs run_handler request_pool_create
  Runs-pool_create e f g (u ∷ v ∷ w ∷ x ∷ y ∷ []) (_, (_, (_, (k, (l, _))))) =
      let (a, q) = Fits-ip_v4 x k in let (b, r) = Fits-ip_v4 y l in rw (q, r) (_, refl)
  Runs-pool_create e f g [] k = elim k [ ]
  Runs-pool_create e f g (u ∷ []) k = elim k.1 [ ]
  Runs-pool_create e f g (u ∷ v ∷ []) k = elim k.1.1 [ ]
  Runs-pool_create e f g (u ∷ v ∷ w ∷ []) k = elim k.1.1.1 [ ]
  Runs-pool_create e f g (u ∷ v ∷ w ∷ x ∷ []) k = elim k.1.1.1.1 [ ]
  Runs-pool_create e f g (u ∷ v ∷ w ∷ x ∷ y ∷ z ∷ r) k = elim k.1.1.1.1.1 [ ]

  Runs-Serves :
      (h : CommandHandler) (stack : List CommandElementRealValue)
      → Any (Serves h stack) commands
      → Runs h stack
  unfolding Runs run_handler
  Runs-Serves h stack (inl (e, f)) = rw (← e) (none, refl)
  Runs-Serves h stack (inr (inl (e, f))) = rw (← e) (none, refl)
  Runs-Serves h stack (inr (inr (inl (e, f)))) = rw (← e) (none, refl)
  Runs-Serves h stack (inr (inr (inr (inl (e, f))))) = rw (← e) (
      subst (Runs cmd_ip_address_ipv4) (reverse-reverse stack)
        (Runs-ip_address _ _ (reverse stack) f))
  Runs-Serves h stack (inr (inr (inr (inr (inl (e, f)))))) = rw (← e) (
      subst (Runs cmd_dhcp_pool_create) (reverse-reverse stack)
        (Runs-pool_create _ _ _ (reverse stack) f))
  Runs-Serves h stack (inr (inr (inr (inr (inr (inl (e, f))))))) = rw (← e) (some _, refl)
  Runs-Serves h stack (inr (inr (inr (inr (inr (inr k)))))) = elim k [ ]

  -- The handler that a line runs on the tree of the table builds its request, if it has one to send, without
  -- an exception and without undefined behaviour: it finds as many values as it counts, and addresses where it takes addresses.
  pub run_handler-analyze_parts :
      (parts : List (List ℕ)) (t : CommandTree) (stack : List CommandElementRealValue)
      (h : CommandHandler)
      → analyze_parts parts (create_command_tree commands) [] ≡ ok (t, stack)
      → only_handler (childs_of t) ≡ some h
      → (request : Option json.Ptree) × (run_handler json h stack ≡ ok request)
  unfolding Runs
  run_handler-analyze_parts parts t stack h r o =
      Runs-Serves h stack (analyze_parts-Serves commands parts t stack h unhandled r o)
    where
      unhandled : All (λ c. All (λ e. e.handler ≡ none) c.elements) commands
      unhandled = (
        (refl, tt),
        (
          (refl, (refl, tt)),
          (
            (refl, (refl, (refl, tt))),
            (
              (refl, (refl, (refl, tt))),
              ((refl, (refl, (refl, (refl, (refl, tt))))), ((refl, (refl, (refl, tt))), tt)),
            ),
          ),
        ),
      )
