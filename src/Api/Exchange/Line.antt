-- ===== src/Api/Exchange/Line.antt =====
-- From a line of the command line to the pools of the DHCP server.
use klevret.Prelude.{ℕ, ◌≡◌, refl, sym, ◌∙◌, true, List, [], ◌∷◌, ◌++◌, text, some, ok, subst}
use klevret.Prelude.{ok-injective}
use klevret.Json.{Json}
use klevret.Endians.{Endian}
use klevret.IpAddress.{Ipv4Address, IsValid}
use klevret.AddressPool.{AddressPool, make_pool}
use klevret.DhcpServer.{DhcpServer, add_address_pool}
use klevret.CommandLine.Addresses.{of_string}
use klevret.CommandLine.Elements.{
  CommandElementRealValue, of_ip_v4_address, of_word, cmd_dhcp_pool_create, eq_element,
  CommandHandler,
}
use klevret.CommandLine.Elements.{parse_ipv4_address, check_command_element}
use klevret.CommandLine.Octets.{of_string-parse_ipv4_address}
use klevret.CommandLine.Tree.{
  CommandTree, childs_of, create_command_tree, add_commands, add_elements, at_child,
}
use klevret.CommandLine.Analysis.{analyze_parts, first_fit, only_handler}
use klevret.CommandLine.Handlers.{run_handler}
use klevret.CommandLine.Handlers.Safety.{commands}
use klevret.CommandLine.Console.{Console, Round, on_enter}
use klevret.Api.Service.{error_text}
use klevret.Api.Exchange.{exchange}
use klevret.Api.Exchange.Outcomes.{exchange-pool_create, pool_request, created}
use klevret.Api.Exchange.Delivery.{AreWhole, request_packets, reply_packets}

-- The parts of a line `dhcp pool create <IPv4Address> <IPv4Address>`.
abbrev pub pool_line : List ℕ → List ℕ → List (List ℕ)
pool_line first second = text "dhcp" ∷ text "pool" ∷ text "create" ∷ first ∷ second ∷ []

abbrev pub pool_stack : Ipv4Address → Ipv4Address → List CommandElementRealValue
pool_stack a b =
    of_ip_v4_address b
    ∷ of_ip_v4_address a
    ∷ of_word (text "create")
    ∷ of_word (text "pool")
    ∷ of_word (text "dhcp")
    ∷ []

analyze_parts-pool_line :
    (first second : List ℕ) (a b : Ipv4Address)
    → parse_ipv4_address first ≡ ok true
    → parse_ipv4_address second ≡ ok true
    → of_string first ≡ ok a
    → of_string second ≡ ok b
    → (t : CommandTree) × (analyze_parts (pool_line first second) (create_command_tree commands) []
        ≡ ok (t, pool_stack a b))
      × (only_handler (childs_of t) ≡ some cmd_dhcp_pool_create)
unfolding analyze_parts first_fit check_command_element add_commands add_elements at_child
    eq_element
analyze_parts-pool_line first second a b h k e f = rw (h, e, k, f) (_, refl, refl)

of_string-IsValid :
    (str : List ℕ) (a : Ipv4Address)
    → parse_ipv4_address str ≡ ok true
    → of_string str ≡ ok a
    → IsValid a
of_string-IsValid str a h e =
    let (a', f, v, _) = of_string-parse_ipv4_address str h in
    subst IsValid (ok-injective (sym f ∙ e)) v

-- ENTER runs the handler that the analysis of the line leads to.
on_enter-runs :
    (split : List ℕ → List (List ℕ)) (root : CommandTree) (console : Console) (t : CommandTree)
    (stack : List CommandElementRealValue) (h : CommandHandler)
    → analyze_parts (split console.current_command_input) root [] ≡ ok (t, stack)
    → only_handler (childs_of t) ≡ some h
    → (round : Round) × (on_enter split root console ≡ ok round) × (round.ran ≡ some (h, stack))
unfolding on_enter
on_enter-runs split root console t stack h e o = rw (e, o) (_, refl, refl)

-- ENTER behind a line `dhcp pool create` with two texts that are read as addresses, of which the
-- constructor makes a pool, where one `recv` gives each packet as a whole: a handler runs, and its request has the server do what `add_address_pool`
-- does with the pool between these addresses, and its status and its error are shown.
pub on_enter-pool_line :
    (boost : Json) (recv : List ℕ → List ℕ) (native : Endian) (fuel : ℕ)
    (split : List ℕ → List (List ℕ)) (console : Console) (s : DhcpServer) (first second : List ℕ)
    (a b : Ipv4Address) (p : AddressPool)
    → split console.current_command_input ≡ pool_line first second
    → parse_ipv4_address first ≡ ok true
    → parse_ipv4_address second ≡ ok true
    → of_string first ≡ ok a
    → of_string second ≡ ok b
    → make_pool native fuel a b ≡ ok p
    → AreWhole recv (
        request_packets boost (pool_request boost a b)
        ++ reply_packets boost (created boost (add_address_pool native s p).0))
    → (round : Round) × (on_enter split (create_command_tree commands) console ≡ ok round)
      × (round.ran ≡ some (cmd_dhcp_pool_create, pool_stack a b))
      × (request : boost.Ptree) × (run_handler boost cmd_dhcp_pool_create (pool_stack a b)
          ≡ ok (some request))
      × (exchange boost recv native fuel s request
          ≡ ok (
            some (error_text (add_address_pool native s p).0, (add_address_pool native s p).0),
            (add_address_pool native s p).1,
          ))
on_enter-pool_line boost recv native fuel split console s first second a b p l h k e f m whole =
    let (t, g, o) = analyze_parts-pool_line first second a b h k e f in
    let (request, r, x) =
      exchange-pool_create boost recv native fuel s a b (of_word (text "create"))
        (of_word (text "pool")) (of_word (text "dhcp")) p (of_string-IsValid first a h e)
        (of_string-IsValid second b k f) m whole in
    let (round, q, ran) =
      on_enter-runs split (create_command_tree commands) console t (pool_stack a b)
        cmd_dhcp_pool_create (rw l g) o in
    (round, q, ran, request, r, x)
