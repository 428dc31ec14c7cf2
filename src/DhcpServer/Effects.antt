-- ===== src/DhcpServer/Effects.antt =====
-- dhcp/src/DhcpServer.cpp: what a round of `main_loop` that goes on has taken and sent.
use klevret.Prelude.{ℕ, ◌≡◌, refl, sym, ap, ◌∙◌, Bool-cases, inl, inr, List, [], ◌∷◌, ◌++◌, ◌==◌}
use klevret.Prelude.{
  Option, some, none, Option-cases, Result, ok, undefined, ◌>>=◌, >>=-eq-ok, ok-injective,
}
use klevret.Prelude.{deref, at, get_elem?, if◌then◌else◌}
use klevret.Endians.{Endian}
use klevret.IpAddress.{Ipv4Address, of_uint32_t}
use klevret.HardwareAddress.{MacAddress}
use klevret.DhcpMessage
use klevret.DhcpMessage.{DhcpMessage, of_data}
use klevret.DhcpServer.{DhcpServer, Xids, NetworkInterface, UdpPacketWithInfo, Outcome}
use klevret.DhcpServer.{find_xid, assign_xid, find_interface, find_option, get_uint8, get_ipv4}
use klevret.DhcpServer.{make_reply, make_offer, make_acknowledge, have_free_address, take_address}
use klevret.DhcpServer.{send_reply, handle_discover, handle_request, handle_packet, main_loop_round}
use klevret.DhcpServer.{dhcp_discover, dhcp_request, dhcp_offer, dhcp_ack}
use klevret.DhcpServer.Replies.{
  reply_header, reply_options, make_offer_wire, make_acknowledge_wire, server_address,
}

module _ (native : Endian) where
  -- A round that goes on sends nothing, offers an address that it has taken, or acknowledges one.
  pub data Effect (s : DhcpServer) (out : Outcome native) : Type 0 where
    quiet : out.0 ≡ s → out.2 ≡ [] → Effect s out
    offers :
        (packet : DhcpMessage) (mac : MacAddress) (ip b : Ipv4Address)
        → take_address native s mac ≡ ok (ip, out.0)
        → out.2 ≡ (reply_header native packet mac ip ++ reply_options native dhcp_offer, b) ∷ []
        → Effect s out
    acknowledges :
        (packet : DhcpMessage) (mac : MacAddress) (ip b : Ipv4Address)
        → out.0 ≡ s
        → out.2 ≡ (reply_header native packet mac ip ++ reply_options native dhcp_ack, b) ∷ []
        → Effect s out

  -- A reply that was sent is the datagram of the message.
  send_reply-sent :
      (interface : NetworkInterface) (reply : Result DhcpMessage) (s : DhcpServer) (xids : Xids)
      (datagram : List ℕ) (out : Outcome native)
      → (reply >>= DhcpMessage.to_network_data native) ≡ ok datagram
      → send_reply native interface reply s xids ≡ ok out
      → (b : Ipv4Address) × (out.0 ≡ s) × (out.2 ≡ (datagram, b) ∷ [])
  unfolding send_reply
  send_reply-sent interface reply s xids datagram out w h =
      let (m, e, f) = >>=-eq-ok reply _ h in
      let (d, g, i) = >>=-eq-ok (DhcpMessage.to_network_data native m) _ f in
      let (b, j, k) = >>=-eq-ok (get_ipv4 interface.broadcast_address) _ i in
      let written : ok d ≡ ok datagram = sym g ∙ (rw e at w) in
      let same = ok-injective k in
      (
        b,
        sym (ap (λ (o : Outcome native). o.0) same),
        sym (ap (λ (o : Outcome native). o.2) same)
            ∙ ap (λ (x : List ℕ). (x, b) ∷ []) (ok-injective written),
      )

  handle_discover-Effect :
      (s : DhcpServer) (xids : Xids) (interface : NetworkInterface) (packet : DhcpMessage)
      (out : Outcome native)
      → handle_discover native s xids interface packet ≡ ok out
      → Effect s out
  unfolding handle_discover
  handle_discover-Effect s xids interface packet out h = elim (Option-cases packet.chaddr) [
    | inl e ↦ absurd (undefined≢ok (rw e at h))
    | inr (mac, e) ↦
        let with_mac = record packet { chaddr = some mac } in
        let ((ip, s'), f, g) = >>=-eq-ok (take_address native s mac) _ (rw e at h) in
        let (b, same, sent) =
          send_reply-sent interface (make_offer native with_mac ip) s'
            (assign_xid packet.xid ip xids) _ out (make_offer_wire native with_mac mac ip refl) g in
        Effect.offers with_mac mac ip b (f ∙ ap (λ t. ok (ip, t)) (sym same)) sent
  ]
    where
      undefined≢ok : ◌≡◌ {A = Result (Outcome native)} undefined (ok out) → ⊥
      undefined≢ok e = cc

  -- An acknowledgement of any address.
  acknowledged :
      (s : DhcpServer) (xids : Xids) (interface : NetworkInterface) (packet : DhcpMessage)
      (ip : Ipv4Address) (out : Outcome native)
      → send_reply native interface (make_acknowledge native packet ip) s xids ≡ ok out
      → Effect s out
  unfolding send_reply make_acknowledge make_reply
  acknowledged s xids interface packet ip out h = elim (Option-cases packet.chaddr) [
    | inl e ↦
        absurd
          (undefined≢ok (rw (server_address, e, send_reply, make_acknowledge, make_reply) at h))
    | inr (mac, e) ↦
        let (b, same, sent) =
          send_reply-sent interface (make_acknowledge native packet ip) s xids _ out
            (make_acknowledge_wire native packet mac ip e) h in
        Effect.acknowledges packet mac ip b same sent
  ]
    where
      undefined≢ok : ◌≡◌ {A = Result (Outcome native)} undefined (ok out) → ⊥
      undefined≢ok e = cc

  handle_request-Effect :
      (s : DhcpServer) (xids : Xids) (interface : NetworkInterface) (packet : DhcpMessage)
      (out : Outcome native)
      → handle_request native s xids interface packet ≡ ok out
      → Effect s out
  unfolding handle_request
  handle_request-Effect s xids interface packet out h =
      elim (Option-cases (find_xid packet.xid xids)) [
        | inl e ↦
            acknowledged s _ interface packet (of_uint32_t native 0) out
              (rw (e, handle_request) at h)
        | inr (ip, e) ↦ acknowledged s xids interface packet ip out (rw (e, handle_request) at h)
      ]

  nothing :
      (s : DhcpServer) (xids : Xids) (out : Outcome native)
      → ◌≡◌ {A = Result (Outcome native)} (ok (s, xids, [])) (ok out)
      → Effect s out
  nothing s xids out h =
      Effect.quiet (sym (ap (λ (o : Outcome native). o.0) (ok-injective h)))
        (sym (ap (λ (o : Outcome native). o.2) (ok-injective h)))

  by_type-Effect :
      (s : DhcpServer) (xids : Xids) (interface : NetworkInterface) (packet : DhcpMessage)
      (msg_type : ℕ) (out : Outcome native)
      → (if msg_type == dhcp_discover
          then handle_discover native s xids interface packet
          else if msg_type == dhcp_request
          then handle_request native s xids interface packet
          else ok (s, xids, []))
        ≡ ok out
      → Effect s out
  by_type-Effect s xids interface packet msg_type out h =
      elim (Bool-cases (msg_type == dhcp_discover)) [
        | inl e ↦ handle_discover-Effect s xids interface packet out (rw e at h)
        | inr e ↦ elim (Bool-cases (msg_type == dhcp_request)) [
          | inl f ↦ handle_request-Effect s xids interface packet out (rw (e, f) at h)
          | inr f ↦ nothing s xids out (rw (e, f) at h)
        ]
      ]

  handle_packet-Effect :
      (s : DhcpServer) (xids : Xids) (interface : NetworkInterface) (packet : DhcpMessage)
      (out : Outcome native)
      → handle_packet native s xids interface packet ≡ ok out
      → Effect s out
  unfolding handle_packet
  handle_packet-Effect s xids interface packet out h = elim (Bool-cases (packet.op == 1)) [
    | inr e ↦ nothing s xids out (rw (e, handle_packet) at h)
    | inl e ↦ elim (Option-cases (find_option 53 packet.options)) [
      | inl f ↦ nothing s xids out (rw (e, f, handle_packet) at h)
      | inr (o, f) ↦
          let (value, g, i) =
            >>=-eq-ok (at (get_elem? o.real_values 0)) _ (rw (e, f, handle_packet) at h) in
          let (msg_type, j, k) = >>=-eq-ok (get_uint8 value) _ i in
          by_type-Effect s xids interface packet msg_type out k
    ]
  ]

  pub main_loop_round-Effect :
      (s : DhcpServer) (xids : Xids) (packet : Option UdpPacketWithInfo) (out : Outcome native)
      → main_loop_round native s xids packet ≡ ok out
      → Effect s out
  unfolding main_loop_round
  main_loop_round-Effect s xids none out h = nothing s xids out h
  main_loop_round-Effect s xids (some packet) out h =
      elim (Bool-cases (have_free_address native s)) [
        | inr e ↦ nothing s xids out (rw (e, main_loop_round) at h)
        | inl e ↦
            let (interface, f, g) =
              >>=-eq-ok (deref (find_interface packet.interface_index s.network_interfaces)) _
                (rw (e, main_loop_round) at h) in
            let (message, i, j) = >>=-eq-ok (of_data native packet.packet_data) _ g in
            handle_packet-Effect s xids interface message out j
      ]
