-- ===== src/Tests/Servers.antt =====
-- dhcp/src/DhcpServer.cpp on a server with one pool and one interface.
use klevret.Prelude.{ℕ, ◌≡◌, ◌↔◌, ◌⊎◌, refl, arith, true, [], ◌∷◌, ◌++◌, some, none, ok}
use klevret.Prelude.{All, ◌>>=◌, ◌∙◌}
use klevret.Prelude.Map.{find, assign}
use klevret.Endians.{little, from_le, to_le, network_array_to_host_endian}
use klevret.IpAddress.{Ipv4Address, to_uint32_t, of_uint32_t}
use klevret.IpAddress
use klevret.IpAddress.{read_bytes}
use klevret.Endians.{host_to_network_endian_array}
use klevret.HardwareAddress.{make_ptr_from_big_endian_bytes}
use klevret.OptionDescription
use klevret.OptionDescription.{
  is_correct_uint, satisfies_uint, get_one_element_payload_length_in_bytes,
}
use klevret.OptionDescription.Table.{options_descriptions, find_description}
use klevret.DhcpOption.{make_option, payload_loop, process_element, process_uint_enum, read_range}
use klevret.DhcpMessage.{
  DhcpMessage, default_message, to_network_data, write_header, of_data, parse_header,
}
use klevret.DhcpMessage.{next_option, parse_options, has_magic_cookie}
use klevret.DhcpServer.{handle_packet, find_option, get_uint8}
use klevret.AddressPool.{AddressPool, get_address, first_free}
use klevret.DhcpServer.{
  DhcpServer, NetworkInterface, UdpPacketWithInfo, ipv4, find_xid, assign_xid, Outcome,
}
use klevret.DhcpServer.{find_interface, make_offer, add_address_pool, have_free_address}
use klevret.DhcpServer.{
  take_address, take_address_from, handle_discover, handle_request, main_loop_round,
}
use klevret.DhcpServer.{dhcp_offer, dhcp_ack}
use klevret.DhcpServer.Pools.{Apart, Around, add_address_pool_iff}
use klevret.DhcpServer.Replies.{reply_header, reply_options, make_offer_wire}
use klevret.DhcpServer.Rounds.{handle_discover_offers, handle_request-handle_discover}
use klevret.DhcpServer.Ending.{main_loop_round-Ends}
use klevret.Prelude.{Ends}
use klevret.Prelude.{List}
use klevret.DhcpServer.Holding.{offer_of}
use klevret.DhcpServer.Traffic.{offer_of-offer}
use klevret.Tests.{ip, mac}
use klevret.Tests.Pools.{new_pool, pool_with_one}

abbrev pub ethernet : NetworkInterface
ethernet = record { linux_interface_index = 2; broadcast_address = ipv4 (ip 255) }

abbrev pub server : DhcpServer
server = record { network_interfaces = ethernet ∷ []; address_pools = new_pool ∷ [] }

abbrev server_with_one : DhcpServer
server_with_one = record server { address_pools = pool_with_one ∷ [] }

-- A message of the client that ends in `n`.
abbrev pub from_client : ℕ → ℕ → DhcpMessage
from_client xid n = record (default_message little) { xid = xid; chaddr = some (mac n) }

taken : take_address little server (mac 1) ≡ ok (ip 1, server_with_one)
unfolding take_address take_address_from get_address first_free find assign
taken = refl

-- A range from 10.0.0.0 to 10.0.0.9, around that of `new_pool`.
abbrev wide_pool : AddressPool
wide_pool = record new_pool { addresses_range = record { start = ip 0; end = ip 9 } }

bounds :
    (to_uint32_t little (ip 0) ≡ 167772160)
    × (to_uint32_t little (ip 1) ≡ 167772161)
    × (to_uint32_t little (ip 2) ≡ 167772162)
    × (to_uint32_t little (ip 9) ≡ 167772169)
unfolding to_uint32_t network_array_to_host_endian from_le to_le
bounds = (refl, refl, refl, refl)

add_address_pool_iff_example :
    ((add_address_pool little server wide_pool).0 ≡ true)
    ↔ All (λ q. Apart little wide_pool q ⊎ Around little wide_pool q) (new_pool ∷ [])
add_address_pool_iff_example =
    add_address_pool_iff little server wide_pool (omega (arith, bounds.0, bounds.3))
      (omega (arith, bounds.1, bounds.2), tt)

make_offer_wire_example :
    (make_offer little (from_client 7 1) (ip 1) >>= to_network_data little)
    ≡ ok (reply_header little (from_client 7 1) (mac 1) (ip 1) ++ reply_options little dhcp_offer)
make_offer_wire_example = make_offer_wire little (from_client 7 1) (mac 1) (ip 1) refl

discovered :
    handle_discover little server [] ethernet (from_client 7 1)
    ≡ ok (
      server_with_one,
      assign_xid 7 (ip 1) [],
      (
        reply_header little (from_client 7 1) (mac 1) (ip 1) ++ reply_options little dhcp_offer,
        ip 255,
      )
          ∷ [],
    )
discovered =
    handle_discover_offers little server [] ethernet (from_client 7 1) (mac 1) (ip 1) (ip 255)
      server_with_one refl refl taken

handle_request-handle_discover_example :
    (a : Ipv4Address) × (take_address little server (mac 1) ≡ ok (a, server_with_one))
    × (handle_request little server_with_one (assign_xid 7 (ip 1) []) ethernet (from_client 7 1)
        ≡ ok (
          server_with_one,
          assign_xid 7 (ip 1) [],
          (reply_header little (from_client 7 1) (mac 1) a ++ reply_options little dhcp_ack, ip 255)
              ∷ [],
        ))
handle_request-handle_discover_example =
    handle_request-handle_discover little server [] ethernet (from_client 7 1) (from_client 7 1)
      (mac 1) (mac 1) (ip 255) _ refl refl refl refl discovered

no_xid : find_xid 7 [] ≡ none
unfolding find_xid
no_xid = refl

has_pool : have_free_address little server ≡ true
unfolding have_free_address
has_pool = refl

known : find_interface 2 (ethernet ∷ []) ≡ some ethernet
unfolding find_interface
known = refl

-- A DISCOVER as it arrives.
abbrev pub discover_packet : UdpPacketWithInfo
discover_packet = record {
  packet_data =
      write_header (from_client 7 1) (mac 1) ++ (99 ∷ 130 ∷ 83 ∷ 99 ∷ 53 ∷ 1 ∷ 1 ∷ 255 ∷ []);
  interface_index = 2;
}

discover_parsed :
    (message : DhcpMessage) × (of_data little discover_packet.packet_data ≡ ok message)
    × (handle_packet little server [] ethernet message
        ≡ handle_discover little server [] ethernet message)
    × (message.chaddr ≡ some (mac 1))
unfolding of_data write_header parse_header next_option parse_options has_magic_cookie make_option
    find_description options_descriptions payload_loop process_element process_uint_enum
    is_correct_uint satisfies_uint OptionDescription.is_allowed read_range read_bytes
    IpAddress.from_big_endian_bytes make_ptr_from_big_endian_bytes
    get_one_element_payload_length_in_bytes handle_packet find_option get_uint8 of_uint32_t
    host_to_network_endian_array to_le from_le
discover_parsed = (_, refl, refl, refl)

pub discover_round :
    (out : Outcome little) × (main_loop_round little server [] (some discover_packet) ≡ ok out)
unfolding main_loop_round
discover_round =
    let (message, e, f, g) = discover_parsed in
    let runs : main_loop_round little server [] (some discover_packet)
        ≡ handle_packet little server [] ethernet message =
      rw (has_pool, known, e, main_loop_round) refl in
    (
      _,
      runs
          ∙ (f
              ∙ handle_discover_offers little server [] ethernet message (mac 1) (ip 1) (ip 255)
                  server_with_one g refl taken),
    )

pub discover_sent :
    (datagram : List ℕ) × (discover_round.0.2 ≡ (datagram, ip 255) ∷ [])
    × (offer_of datagram ≡ some (mac 1, ip 1))
unfolding discover_round
discover_sent = (_, refl, offer_of-offer little discover_parsed.0 (mac 1) (ip 1))

abbrev short_packet : UdpPacketWithInfo
short_packet = record { packet_data = 1 ∷ 1 ∷ 6 ∷ []; interface_index = 2 }

main_loop_round-Ends_example : Ends (main_loop_round little server [] (some short_packet))
main_loop_round-Ends_example =
    main_loop_round-Ends little server [] short_packet
      (omega arith, (omega arith, (omega arith, tt)))
