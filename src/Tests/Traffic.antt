-- ===== src/Tests/Traffic.antt =====
-- dhcp/src/DhcpServer.cpp from the start of a server on: a pool is added, and a DISCOVER arrives.
use klevret.Prelude.{◌≡◌, refl, [], ◌∷◌, ◌++◌, some, inl, true, Any}
use klevret.Prelude.Order.{same}
use klevret.Prelude.{ℕ, none, ok, false, sym, ◌∙◌}
use klevret.Prelude.Map.{find}
use klevret.IpAddress
use klevret.IpAddress.{Ipv4Address, read_bytes, of_uint32_t}
use klevret.Endians.{host_to_network_endian_array}
use klevret.HardwareAddress.{make_ptr_from_big_endian_bytes}
use klevret.OptionDescription
use klevret.OptionDescription.{
  is_correct_uint, satisfies_uint, get_one_element_payload_length_in_bytes,
}
use klevret.OptionDescription.Table.{options_descriptions, find_description}
use klevret.DhcpOption.{make_option, payload_loop, process_element, process_uint_enum, read_range}
use klevret.DhcpMessage.{DhcpMessage, write_header, of_data, parse_header}
use klevret.DhcpMessage.{next_option, parse_options, has_magic_cookie}
use klevret.DhcpServer.{
  handle_packet, find_option, get_uint8, find_interface, UdpPacketWithInfo, Xids, dhcp_offer,
  dhcp_ack,
}
use klevret.DhcpServer.Replies.{reply_header, reply_options}
use klevret.DhcpServer.Holding.{Holds}
use klevret.DhcpServer.Handshake.{IsMessage}
use klevret.DhcpServer.Sending.{Network, sending_round}
use klevret.DhcpServer.Sending.Answers.{IsSending, sending_round-answers}
use klevret.Prelude.{length}
use klevret.AddressPool.Invariant.{held_by, reserved_for}
use klevret.AddressPool.Selection.{is_unavailable}
use klevret.AddressPool.Reachable.{Reach-IsConsistent}
use klevret.Tests.Servers.{from_client}
use klevret.Tests.Pools.{Reach-new}
use klevret.Endians.{little, from_le, to_le, network_array_to_host_endian}
use klevret.IpAddress.{less_ip, to_uint32_t}
use klevret.IpAddress.Laws.{ip_order}
use klevret.DhcpServer.{DhcpServer, Outcome, add_address_pool, intersects_any}
use klevret.DhcpServer.Traffic.{ServerReach, started, pool_added, round, ServerReach-exclusive}
use klevret.Tests.{ip, mac}
use klevret.Tests.Pools.{new_pool, new_pool_made}
use klevret.Tests.Servers.{ethernet, server, discover_packet, discover_round, discover_sent}

abbrev fresh_server : DhcpServer
fresh_server = record { network_interfaces = ethernet ∷ []; address_pools = [] }

with_pool : (add_address_pool little fresh_server new_pool).1 ≡ server
unfolding add_address_pool intersects_any
with_pool = refl

-- The round of the DISCOVER, and what it has sent.
abbrev after : Outcome little
after = discover_round.0

Reach-after : ServerReach little after.0 after.1 (after.2 ++ [])
Reach-after =
    round (some discover_packet) after
      (pool_added 3 (ip 1) (ip 2) new_pool (started (ethernet ∷ []) refl) new_pool_made with_pool)
      discover_round.1 refl refl refl

same_1 : same (ip_order little) (ip 1) (ip 1) ≡ true
unfolding same less_ip to_uint32_t network_array_to_host_endian from_le to_le
same_1 = refl

offered : Any (λ x. x.0 ≡ discover_sent.0) (after.2 ++ [])
offered = rw (discover_sent.1) (inl refl)

ServerReach-exclusive_example : mac 1 ≡ mac 1
ServerReach-exclusive_example =
    ServerReach-exclusive little after.0 after.1 (after.2 ++ []) discover_sent.0 discover_sent.0
      (mac 1) (mac 1) (ip 1) (ip 1) Reach-after offered offered discover_sent.2 discover_sent.2
      same_1

-- A message of the client with the given type, as it arrives.
abbrev client_packet : ℕ → UdpPacketWithInfo
client_packet t = record {
  packet_data =
      write_header (from_client 7 1) (mac 1) ++ (99 ∷ 130 ∷ 83 ∷ 99 ∷ 53 ∷ 1 ∷ t ∷ 255 ∷ []);
  interface_index = 2;
}

discover_message :
    (message : DhcpMessage) × IsMessage little (ethernet ∷ []) (client_packet 1) ethernet message 1
    × (message.chaddr ≡ some (mac 1))
    × (message.xid ≡ 7)
unfolding of_data write_header parse_header next_option parse_options has_magic_cookie make_option
    find_description options_descriptions payload_loop process_element process_uint_enum
    is_correct_uint satisfies_uint OptionDescription.is_allowed read_range read_bytes
    IpAddress.from_big_endian_bytes make_ptr_from_big_endian_bytes
    get_one_element_payload_length_in_bytes handle_packet find_option get_uint8 of_uint32_t
    host_to_network_endian_array to_le from_le find_interface
discover_message = (
  _,
  record {
    known = refl;
    parsed = refl;
    from_client = refl;
    option_53 = _;
    option_found = refl;
    value = _;
    value_found = refl;
    typed = refl;
  },
  refl,
  refl,
)

request_message :
    (message : DhcpMessage) × IsMessage little (ethernet ∷ []) (client_packet 3) ethernet message 3
    × (message.chaddr ≡ some (mac 1))
    × (message.xid ≡ 7)
unfolding of_data write_header parse_header next_option parse_options has_magic_cookie make_option
    find_description options_descriptions payload_loop process_element process_uint_enum
    is_correct_uint satisfies_uint OptionDescription.is_allowed read_range read_bytes
    IpAddress.from_big_endian_bytes make_ptr_from_big_endian_bytes
    get_one_element_payload_length_in_bytes handle_packet find_option get_uint8 of_uint32_t
    host_to_network_endian_array to_le from_le find_interface
request_message = (
  _,
  record {
    known = refl;
    parsed = refl;
    from_client = refl;
    option_53 = _;
    option_found = refl;
    value = _;
    value_found = refl;
    typed = refl;
  },
  refl,
  refl,
)

new_pool_free :
    (reserved_for new_pool (mac 1) ≡ none)
    × (held_by new_pool (mac 1) ≡ none)
    × Any (λ a. is_unavailable little new_pool a ≡ false) new_pool.included_addresses
unfolding find
new_pool_free = (refl, refl, inl refl)

-- A system that sends every datagram.
abbrev network : Network
network = record {
  can_open = true;
  can_broadcast = true;
  sendto = λ datagram to. some (length datagram);
}

network_sends : IsSending network (ip 255)
network_sends = record { opens = refl; broadcasts = refl; sends = λ datagram h. refl }

sending_round-answers_example :
    (a : Ipv4Address) × (s' : DhcpServer) × (xids' : Xids) × (sending_round network little server []
        (some (client_packet 1))
      ≡ ok (
        s',
        xids',
        (
          reply_header little discover_message.0 (mac 1) a ++ reply_options little dhcp_offer,
          ip 255,
        )
            ∷ [],
      ))
    × Holds s'.address_pools (mac 1) a
    × (sending_round network little s' xids' (some (client_packet 3))
        ≡ ok (
          s',
          xids',
          (reply_header little request_message.0 (mac 1) a ++ reply_options little dhcp_ack, ip 255)
              ∷ [],
        ))
sending_round-answers_example =
    sending_round-answers network little (ethernet ∷ []) new_pool [] [] (client_packet 1)
      (client_packet 3) ethernet discover_message.0 request_message.0 (mac 1) (ip 255) network_sends
      discover_message.1 request_message.1 discover_message.2 request_message.2
      (request_message.3 ∙ sym discover_message.3) refl (Reach-IsConsistent little Reach-new)
      new_pool_free.0 new_pool_free.1 new_pool_free.2
