-- ===== src/DhcpServer/Handshake.antt =====
-- dhcp/src/DhcpServer.cpp: a DISCOVER and the REQUEST after it, each in a round of `main_loop`.
use klevret.Prelude.{ℕ, ◌≡◌, refl, ◌∙◌, arith, true, false, Bool-cases, inl, inr, ◌==◌}
use klevret.Prelude.{subst, List, [], ◌∷◌, ◌++◌, Any, get_elem?, some, none, ok}
use klevret.Endians.{Endian}
use klevret.IpAddress.{Ipv4Address}
use klevret.HardwareAddress.{MacAddress}
use klevret.AddressPool.{AddressPool, get_address, first_free}
use klevret.AddressPool.Invariant.{IsConsistent, held_by, reserved_for}
use klevret.AddressPool.Selection.{is_unavailable, get_address-new, get_address-IsConsistent}
use klevret.DhcpOption.{DhcpOption, RealValue}
use klevret.DhcpMessage.{DhcpMessage, of_data}
use klevret.DhcpServer.{DhcpServer, Xids, NetworkInterface, UdpPacketWithInfo, ipv4}
use klevret.DhcpServer.{
  find_interface, find_option, get_uint8, have_free_address, take_address, take_address_from,
}
use klevret.DhcpServer.{assign_xid, handle_discover, handle_request, handle_packet, main_loop_round}
use klevret.DhcpServer.{dhcp_discover, dhcp_request, dhcp_offer, dhcp_ack}
use klevret.DhcpServer.Replies.{reply_header, reply_options}
use klevret.DhcpServer.Rounds.{handle_discover_offers, handle_request-handle_discover}
use klevret.DhcpServer.Holding.{Holds}

-- The loop over the included addresses gives one, if one is available.
first_free-available :
    (native : Endian) (p : AddressPool) (mac : MacAddress) (ips : List Ipv4Address)
    → Any (λ a. is_unavailable native p a ≡ false) ips
    → (ip : Ipv4Address) × (p' : AddressPool) × (first_free native p mac ips ≡ ok (ip, p'))
unfolding first_free
first_free-available native p mac [] h = elim h [ ]
first_free-available native p mac (a ∷ ips) (inl h) = rw h (_, _, refl)
first_free-available native p mac (a ∷ ips) (inr h) =
    elim (Bool-cases (is_unavailable native p a)) [
      | inl busy ↦ rw busy (first_free-available native p mac ips h)
      | inr free ↦ rw free (_, _, refl)
    ]

-- A datagram of a client that is parsed to a message of the given type, on an interface of the server.
pub record IsMessage (native : Endian) (interfaces : List NetworkInterface)
    (packet : UdpPacketWithInfo) (interface : NetworkInterface) (message : DhcpMessage)
    (msg_type : ℕ) : Type 0 where
  pub known : find_interface packet.interface_index interfaces ≡ some interface
  pub parsed : of_data native packet.packet_data ≡ ok message
  pub from_client : (message.op == 1) ≡ true
  pub option_53 : DhcpOption
  pub option_found : find_option 53 message.options ≡ some option_53
  pub value : RealValue
  pub value_found : get_elem? option_53.real_values 0 ≡ some value
  pub typed : get_uint8 value ≡ ok msg_type

module _ (native : Endian) (s : DhcpServer) (xids : Xids) (packet : UdpPacketWithInfo)
    (interface : NetworkInterface) (message : DhcpMessage) where
  main_loop_round-discover :
      have_free_address native s ≡ true
      → IsMessage native s.network_interfaces packet interface message dhcp_discover
      → main_loop_round native s xids (some packet)
        ≡ handle_discover native s xids interface message
  unfolding main_loop_round handle_packet
  main_loop_round-discover f m =
      rw
        (
          f, m.known, m.parsed, m.from_client, m.option_found, m.value_found, m.typed,
          main_loop_round, handle_packet,
        )
        refl

  main_loop_round-request :
      have_free_address native s ≡ true
      → IsMessage native s.network_interfaces packet interface message dhcp_request
      → main_loop_round native s xids (some packet) ≡ handle_request native s xids interface message
  unfolding main_loop_round handle_packet
  main_loop_round-request f m =
      rw
        (
          f, m.known, m.parsed, m.from_client, m.option_found, m.value_found, m.typed,
          main_loop_round, handle_packet,
        )
        refl

-- A server with one pool at least.
pools_first :
    (native : Endian) (interfaces : List NetworkInterface) (p : AddressPool)
    (pools : List AddressPool)
    → have_free_address native
        (record { network_interfaces = interfaces; address_pools = p ∷ pools })
      ≡ true
unfolding have_free_address
pools_first native interfaces p pools = ground arith

-- The two rounds, up to the sending of their replies.
pub main_loop_round-answers :
    (native : Endian) (interfaces : List NetworkInterface) (p : AddressPool)
    (pools : List AddressPool) (xids : Xids) (discover request : UdpPacketWithInfo)
    (interface : NetworkInterface) (message next : DhcpMessage) (mac : MacAddress) (b : Ipv4Address)
    → IsMessage native interfaces discover interface message dhcp_discover
    → IsMessage native interfaces request interface next dhcp_request
    → message.chaddr ≡ some mac
    → next.chaddr ≡ some mac
    → next.xid ≡ message.xid
    → interface.broadcast_address ≡ ipv4 b
    → IsConsistent native p
    → reserved_for p mac ≡ none
    → held_by p mac ≡ none
    → Any (λ a. is_unavailable native p a ≡ false) p.included_addresses
    → (ip : Ipv4Address) × (s' : DhcpServer) × (xids' : Xids) × (main_loop_round native
          (record { network_interfaces = interfaces; address_pools = p ∷ pools })
          xids
          (some discover)
        ≡ ok (
          s',
          xids',
          (reply_header native message mac ip ++ reply_options native dhcp_offer, b) ∷ [],
        ))
      × Holds s'.address_pools mac ip
      × (main_loop_round native s' xids' (some request)
          ≡ ok (
            s',
            xids',
            (reply_header native next mac ip ++ reply_options native dhcp_ack, b) ∷ [],
          ))
unfolding take_address take_address_from
main_loop_round-answers native interfaces p pools xids discover request interface message next mac b
      m n c d x i v r h a =
    let (ip, p', e) = first_free-available native p mac p.included_addresses a in
    let given : get_address native p mac ≡ ok (ip, p') =
      get_address-new native p mac r h v.no_cache ∙ e in
    let s : DhcpServer = record { network_interfaces = interfaces; address_pools = p ∷ pools } in
    let s' : DhcpServer = record { network_interfaces = interfaces; address_pools = p' ∷ pools } in
    let taken : take_address native s mac ≡ ok (ip, s') = rw given refl in
    let offered = handle_discover_offers native s xids interface message mac ip b s' c i taken in
    let (ip', t, acknowledged) =
      handle_request-handle_discover native s xids interface message next mac mac b _ c d i x
        offered in
    let same : ip' ≡ ip = cc in
    (
      ip,
      s',
      assign_xid message.xid ip xids,
      main_loop_round-discover native s xids discover interface message
            (pools_first native interfaces p pools) m
          ∙ offered,
      (get_address-IsConsistent native p mac ip p' v given).1,
      main_loop_round-request native s' (assign_xid message.xid ip xids) request interface next
            (pools_first native interfaces p' pools) n
          ∙ subst
              (λ k.
                handle_request native s' (assign_xid message.xid ip xids) interface next
                ≡ ok (
                  s',
                  assign_xid message.xid ip xids,
                  (reply_header native next mac k ++ reply_options native dhcp_ack, b) ∷ [],
                ))
              same acknowledged,
    )
