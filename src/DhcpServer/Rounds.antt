-- ===== src/DhcpServer/Rounds.antt =====
-- dhcp/src/DhcpServer.cpp: what a round of `main_loop` does.
use klevret.Prelude.{ℕ, ◌<◌, ◌≡◌, refl, sym, ap, ◌∙◌, arith, true, List, [], ◌∷◌, ◌++◌, length}
use klevret.Prelude.{some, none, Result, ok, throw}
use klevret.Prelude.{◌>>=◌, >>=-eq-ok, ok-injective, ltb, message_too_short}
use klevret.Endians.{Endian}
use klevret.IpAddress.{Ipv4Address, of_uint32_t}
use klevret.HardwareAddress.{MacAddress}
use klevret.DhcpMessage
use klevret.DhcpMessage.{DhcpMessage, of_data, dhcp_message_min_length}
use klevret.DhcpServer.{DhcpServer, Xids, NetworkInterface, UdpPacketWithInfo, ipv4}
use klevret.DhcpServer.{find_xid, assign_xid, find_interface, get_ipv4}
use klevret.DhcpServer.{make_offer, make_acknowledge, have_free_address, take_address, Outcome}
use klevret.DhcpServer.{send_reply, handle_discover, handle_request}
use klevret.DhcpServer.{main_loop_round, dhcp_offer, dhcp_ack}
use klevret.DhcpServer.Replies.{reply_header, reply_options, make_offer_wire, make_acknowledge_wire}

find_xid-assign_xid :
    (xid : ℕ) (ip : Ipv4Address) (xids : Xids) → find_xid xid (assign_xid xid ip xids) ≡ some ip
unfolding find_xid assign_xid
find_xid-assign_xid xid ip [] = ground arith
find_xid-assign_xid xid ip ((x, a) ∷ xids) = ground (arith, find_xid-assign_xid xid ip xids)

-- A reply is sent to the interface's broadcast address.
send_reply-ok :
    (native : Endian) (interface : NetworkInterface) (reply : Result DhcpMessage) (s : DhcpServer)
    (xids : Xids) (datagram : List ℕ) (b : Ipv4Address)
    → interface.broadcast_address ≡ ipv4 b
    → (reply >>= DhcpMessage.to_network_data native) ≡ ok datagram
    → send_reply native interface reply s xids ≡ ok (s, xids, (datagram, b) ∷ [])
unfolding send_reply get_ipv4
send_reply-ok native interface reply s xids datagram b i h =
    let (m, e, f) = >>=-eq-ok reply _ h in rw (e, i, send_reply) (rw f refl)

-- What a reply leaves of the server and of the ids.
pub send_reply-keeps :
    (native : Endian) (interface : NetworkInterface) (reply : Result DhcpMessage) (s : DhcpServer)
    (xids : Xids) (out : Outcome native)
    → send_reply native interface reply s xids ≡ ok out
    → (out.0 ≡ s) × (out.1 ≡ xids)
unfolding send_reply
send_reply-keeps native interface reply s xids out h =
    let (m, e, f) = >>=-eq-ok reply _ h in
    let (d, g, i) = >>=-eq-ok (DhcpMessage.to_network_data native m) _ f in
    let (b, j, k) = >>=-eq-ok (get_ipv4 interface.broadcast_address) _ i in
    (
      sym (ap (λ (o : Outcome native). o.0) (ok-injective k)),
      sym (ap (λ (o : Outcome native). o.1) (ok-injective k)),
    )

-- A DISCOVER takes an address for the client and broadcasts an offer of it.
pub handle_discover_offers :
    (native : Endian) (s : DhcpServer) (xids : Xids) (interface : NetworkInterface)
    (packet : DhcpMessage) (mac : MacAddress) (ip b : Ipv4Address) (s' : DhcpServer)
    → packet.chaddr ≡ some mac
    → interface.broadcast_address ≡ ipv4 b
    → take_address native s mac ≡ ok (ip, s')
    → handle_discover native s xids interface packet
      ≡ ok (
        s',
        assign_xid packet.xid ip xids,
        (reply_header native packet mac ip ++ reply_options native dhcp_offer, b) ∷ [],
      )
unfolding handle_discover
handle_discover_offers native s xids interface packet mac ip b s' h i t =
    rw (h, t, handle_discover)
      (send_reply-ok native interface (make_offer native with_mac ip) s'
        (assign_xid packet.xid ip xids) _ b i (make_offer_wire native with_mac mac ip refl))
  where
    with_mac : DhcpMessage
    with_mac = record packet { chaddr = some mac }

-- After a DISCOVER that was answered, a REQUEST with the same transaction id is acknowledged with
-- the address that the DISCOVER took for its client.
pub handle_request-handle_discover :
    (native : Endian) (s : DhcpServer) (xids : Xids) (interface : NetworkInterface)
    (packet request : DhcpMessage) (mac other : MacAddress) (b : Ipv4Address) (out : Outcome native)
    → packet.chaddr ≡ some mac
    → request.chaddr ≡ some other
    → interface.broadcast_address ≡ ipv4 b
    → request.xid ≡ packet.xid
    → handle_discover native s xids interface packet ≡ ok out
    → (ip : Ipv4Address) × (take_address native s mac ≡ ok (ip, out.0))
      × (handle_request native out.0 out.1 interface request
          ≡ ok (
            out.0,
            out.1,
            (reply_header native request other ip ++ reply_options native dhcp_ack, b) ∷ [],
          ))
unfolding handle_discover handle_request
handle_request-handle_discover native s xids interface packet request mac other b out h k i x e =
    let ((ip, s'), f, g) = >>=-eq-ok (take_address native s mac) _ (rw (h, handle_discover) at e) in
    let (same_s, same_xids) = send_reply-keeps native interface _ s' _ out g in
    let known : find_xid request.xid out.1 ≡ some ip =
      ap (λ y. find_xid request.xid y) same_xids
      ∙ (ap (λ y. find_xid y (assign_xid packet.xid ip xids)) x
          ∙ find_xid-assign_xid packet.xid ip xids) in
    (
      ip,
      f ∙ ap (λ t. ok (ip, t)) (sym same_s),
      rw (known, handle_request)
          (send_reply-ok native interface (make_acknowledge native request ip) out.0 out.1 _ b i
            (make_acknowledge_wire native request other ip k)),
    )

-- A REQUEST whose transaction id no DISCOVER has used is acknowledged with the address 0.0.0.0.
pub handle_request_unknown :
    (native : Endian) (s : DhcpServer) (xids : Xids) (interface : NetworkInterface)
    (request : DhcpMessage) (mac : MacAddress) (b : Ipv4Address)
    → request.chaddr ≡ some mac
    → interface.broadcast_address ≡ ipv4 b
    → find_xid request.xid xids ≡ none
    → handle_request native s xids interface request
      ≡ ok (
        s,
        assign_xid request.xid (of_uint32_t native 0) xids,
        (reply_header native request mac (of_uint32_t native 0) ++ reply_options native dhcp_ack, b)
            ∷ [],
      )
unfolding handle_request
handle_request_unknown native s xids interface request mac b k i unknown =
    rw (unknown, handle_request)
      (send_reply-ok native interface (make_acknowledge native request (of_uint32_t native 0)) s _ _
        b i (make_acknowledge_wire native request mac (of_uint32_t native 0) k))

-- A datagram of fewer than 236 bytes that arrives on a known interface while there is a pool ends
-- `main_loop` by an exception.
pub main_loop_round_short :
    (native : Endian) (s : DhcpServer) (xids : Xids) (packet : UdpPacketWithInfo)
    (interface : NetworkInterface)
    → have_free_address native s ≡ true
    → find_interface packet.interface_index s.network_interfaces ≡ some interface
    → length packet.packet_data < dhcp_message_min_length
    → main_loop_round native s xids (some packet) ≡ throw message_too_short
unfolding main_loop_round of_data
main_loop_round_short native s xids packet interface f i lt =
    let short : ltb (length packet.packet_data) dhcp_message_min_length ≡ true = ground arith in
    rw (f, i, main_loop_round) (rw (short, of_data) refl)
