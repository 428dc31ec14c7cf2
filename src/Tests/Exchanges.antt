-- ===== src/Tests/Exchanges.antt =====
-- The processes on one request each, and a listener of which a message is taken.
use klevret.Prelude.{ℕ, arith, ◌≡◌, refl, true, List, [], ◌∷◌, text, some, none, ok, false}
use klevret.Endians.{little}
use klevret.IpAddress.{IsValid}
use klevret.DhcpServer.{DhcpServer, add_address_pool}
use klevret.CommandLine.Addresses.{of_string, read_octets, parse_octet, digits_loop}
use klevret.CommandLine.Elements.{
  parse_ipv4_address, check_octets, parse_number, of_word, of_ip_v4_address,
}
use klevret.CommandLine.Elements.{cmd_dhcp_pool_create, cmd_ip_address_ipv4, cmd_dhcp_pool_list}
use klevret.CommandLine.Tree.{create_command_tree}
use klevret.CommandLine.Handlers.{run_handler}
use klevret.CommandLine.Handlers.Safety.{commands}
use klevret.CommandLine.Console.{Round, on_enter, start}
use klevret.Api.{ApiMessage, ApiListener, deserialize, receive, get_next_message}
use klevret.Api.Queue.{started, arrives, takes, ListenerReach-queue}
use klevret.Api.Service.{error_text}
use klevret.Api.Exchange.{exchange}
use klevret.Api.Exchange.Failures.{exchange-ip_address, exchange-pool_list}
use klevret.Api.Exchange.Line.{pool_line, pool_stack, on_enter-pool_line}
use klevret.Tests.{ip}
use klevret.Tests.Pools.{new_pool, new_pool_made}
use klevret.Tests.Servers.{ethernet}
use klevret.Tests.Commands.{accepted_1}
use klevret.Tests.Trees.{trees}

abbrev fresh_server : DhcpServer
fresh_server = record { network_interfaces = ethernet ∷ []; address_pools = [] }

abbrev split_pool_line : List ℕ → List (List ℕ)
split_pool_line line = pool_line (text "10.0.0.1") (text "10.0.0.2")

accepted_2 : parse_ipv4_address (text "10.0.0.2") ≡ ok true
unfolding parse_ipv4_address check_octets parse_number digits_loop
accepted_2 = refl

addresses : (of_string (text "10.0.0.1") ≡ ok (ip 1)) × (of_string (text "10.0.0.2") ≡ ok (ip 2))
unfolding of_string read_octets parse_octet digits_loop
addresses = (refl, refl)

on_enter-pool_line_example :
    (round : Round) × (on_enter split_pool_line (create_command_tree commands) start ≡ ok round)
    × (round.ran ≡ some (cmd_dhcp_pool_create, pool_stack (ip 1) (ip 2)))
    × (request : trees.Ptree) × (run_handler trees cmd_dhcp_pool_create (pool_stack (ip 1) (ip 2))
        ≡ ok (some request))
    × (exchange trees (λ packet. packet) little 3 fresh_server request
        ≡ ok (
          some (
            error_text (add_address_pool little fresh_server new_pool).0,
            (add_address_pool little fresh_server new_pool).0,
          ),
          (add_address_pool little fresh_server new_pool).1,
        ))
on_enter-pool_line_example =
    on_enter-pool_line trees (λ packet. packet) little 3 split_pool_line start fresh_server
      (text "10.0.0.1") (text "10.0.0.2") (ip 1) (ip 2) new_pool refl accepted_1 accepted_2
      addresses.0 addresses.1 new_pool_made (refl, (refl, (refl, (refl, tt))))

ip_1-IsValid : IsValid (ip 1)
ip_1-IsValid = record {
  byte_0 = omega arith;
  byte_1 = omega arith;
  byte_2 = omega arith;
  byte_3 = omega arith;
}

exchange-ip_address_example :
    (request : trees.Ptree) × (run_handler trees cmd_ip_address_ipv4
        (of_ip_v4_address (ip 1) ∷ of_word (text "address") ∷ of_word (text "ip") ∷ [])
      ≡ ok (some request))
    × (exchange trees (λ packet. packet) little 3 fresh_server request ≡ ok (none, fresh_server))
exchange-ip_address_example =
    exchange-ip_address trees (λ packet. packet) little 3 fresh_server (ip 1)
      (of_word (text "address")) (of_word (text "ip")) ip_1-IsValid (refl, (refl, tt))

exchange-pool_list_example :
    (request : trees.Ptree) × (run_handler trees cmd_dhcp_pool_list [] ≡ ok (some request))
    × (exchange trees (λ packet. packet) little 3 fresh_server request
        ≡ ok (some (text "blank msg", false), fresh_server))
exchange-pool_list_example =
    exchange-pool_list trees (λ packet. packet) little 3 fresh_server []
      (refl, (refl, (refl, (refl, tt))))

-- Two packets arrive, and the message of the first is taken.
abbrev component_message : ApiMessage trees
component_message = record {
  component_name = text "dhcp";
  json = (text "component", text "dhcp") ∷ [];
}

abbrev component_packet : List ℕ
component_packet = trees.write_json ((text "component", text "dhcp") ∷ [])

packet_read : deserialize trees component_packet ≡ ok component_message
unfolding deserialize
packet_read = refl

abbrev empty_listener : ApiListener trees
empty_listener = record { queue = [] }

abbrev full_listener : ApiListener trees
full_listener = record { queue = component_message ∷ [] }

received : receive trees empty_listener component_packet ≡ ok full_listener
unfolding receive deserialize
received = refl

taken : get_next_message trees full_listener ≡ ok (component_message, empty_listener)
unfolding get_next_message
taken = refl

ListenerReach-queue_example : component_message ∷ [] ≡ component_message ∷ []
ListenerReach-queue_example =
    ListenerReach-queue trees (component_message ∷ []) (component_message ∷ []) empty_listener (
      takes component_message
        (arrives component_packet component_message (started refl) packet_read received refl) taken
        refl)
