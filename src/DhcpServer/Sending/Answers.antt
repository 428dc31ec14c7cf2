-- ===== src/DhcpServer/Sending/Answers.antt =====
-- dhcp/src/DhcpServer.cpp and UdpListener.cpp: a DISCOVER and the REQUEST after it, with the sending of
-- the replies.
use klevret.Prelude.{ℕ, ◌≡◌, refl, arith, true, false, ◌==◌}
use klevret.Prelude.{List, [], ◌∷◌, ◌++◌, Any, some, none, ok}
use klevret.Endians.{Endian, little, big}
use klevret.IpAddress.{Ipv4Address}
use klevret.HardwareAddress.{MacAddress}
use klevret.AddressPool.{AddressPool}
use klevret.AddressPool.Invariant.{IsConsistent, held_by, reserved_for}
use klevret.AddressPool.Selection.{is_unavailable}
use klevret.DhcpMessage.{DhcpMessage}
use klevret.DhcpServer.{DhcpServer, Xids, NetworkInterface, UdpPacketWithInfo, ipv4}
use klevret.DhcpServer.{main_loop_round}
use klevret.DhcpServer.{dhcp_discover, dhcp_request, dhcp_offer, dhcp_ack}
use klevret.DhcpServer.Replies.{reply_header, reply_options}
use klevret.DhcpServer.Holding.{Holds}
use klevret.DhcpServer.Handshake.{IsMessage, main_loop_round-answers}
use klevret.DhcpServer.Sending.{Network, broadcast_send_to, send_all, sending_round}
use klevret.DhcpMessage.{write_header}
use klevret.Prelude.{ℕ, ◌≤◌, length}

-- The system sends datagrams of up to 1000 bytes to the address.
pub record IsSending (network : Network) (b : Ipv4Address) : Type 0 where
  pub opens : network.can_open ≡ true
  pub broadcasts : network.can_broadcast ≡ true
  pub sends :
      (datagram : List ℕ)
      → length datagram ≤ 1000
      → network.sendto datagram b ≡ some (length datagram)

-- A round with one short reply sends it.
sending_round-sent :
    (network : Network) (native : Endian) (s s' : DhcpServer) (xids xids' : Xids)
    (packet : UdpPacketWithInfo) (datagram : List ℕ) (b : Ipv4Address)
    → IsSending network b
    → length datagram ≤ 1000
    → 1 ≤ length datagram
    → main_loop_round native s xids (some packet) ≡ ok (s', xids', (datagram, b) ∷ [])
    → sending_round network native s xids (some packet) ≡ ok (s', xids', (datagram, b) ∷ [])
unfolding sending_round send_all broadcast_send_to
sending_round-sent network native s s' xids xids' packet datagram b v h n e =
    rw (e, v.opens, v.broadcasts, v.sends datagram h, not_zero (length datagram) n) refl
  where
    not_zero : (k : ℕ) → 1 ≤ k → (k == 0) ≡ false
    not_zero k h = ground arith

reply_length :
    (native : Endian) (packet : DhcpMessage) (mac : MacAddress) (ip : Ipv4Address)
    (message_type : ℕ)
    → (length (reply_header native packet mac ip ++ reply_options native message_type) ≤ 1000)
      × (1 ≤ length (reply_header native packet mac ip ++ reply_options native message_type))
unfolding write_header
reply_length little packet mac ip message_type = (omega arith, omega arith)
reply_length big packet mac ip message_type = (omega arith, omega arith)

-- Two messages of one client come on an interface of the server with an IPv4 broadcast address, to which
-- the system sends short datagrams, and the maps of the first pool are consistent. A DISCOVER of the
-- client, which has no reservation and no address, while an included address of that pool is available, is
-- answered in its round by one offer, and the REQUEST with the same transaction id in the next round by
-- one acknowledgement of the address that was offered; the client holds this address in the server that
-- the two rounds leave.
pub sending_round-answers :
    (network : Network) (native : Endian) (interfaces : List NetworkInterface) (p : AddressPool)
    (pools : List AddressPool) (xids : Xids) (discover request : UdpPacketWithInfo)
    (interface : NetworkInterface) (message next : DhcpMessage) (mac : MacAddress) (b : Ipv4Address)
    → IsSending network b
    → IsMessage native interfaces discover interface message dhcp_discover
    → IsMessage native interfaces request interface next dhcp_request
    → message.chaddr ≡ some mac
    → next.chaddr ≡ some mac
    → next.xid ≡ message.xid
    → interface.broadcast_address ≡ ipv4 b
    → IsConsistent native p
    → reserved_for p mac ≡ none
    → held_by p mac ≡ none
    → Any (λ a. is_unavailable native p a ≡ false) p.included_addresses
    → (ip : Ipv4Address) × (s' : DhcpServer) × (xids' : Xids) × (sending_round network native
          (record { network_interfaces = interfaces; address_pools = p ∷ pools })
          xids
          (some discover)
        ≡ ok (
          s',
          xids',
          (reply_header native message mac ip ++ reply_options native dhcp_offer, b) ∷ [],
        ))
      × Holds s'.address_pools mac ip
      × (sending_round network native s' xids' (some request)
          ≡ ok (
            s',
            xids',
            (reply_header native next mac ip ++ reply_options native dhcp_ack, b) ∷ [],
          ))
sending_round-answers network native interfaces p pools xids discover request interface message next
      mac b sending m n c d x i v r h a =
    let (ip, s', xids', e, k, f) =
      main_loop_round-answers native interfaces p pools xids discover request interface message next
        mac b m n c d x i v r h a in
    let (o, q) = reply_length native message mac ip dhcp_offer in
    let (t, u) = reply_length native next mac ip dhcp_ack in
    (
      ip,
      s',
      xids',
      sending_round-sent network native _ s' xids xids' discover _ b sending o q e,
      k,
      sending_round-sent network native s' s' xids' xids' request _ b sending t u f,
    )
