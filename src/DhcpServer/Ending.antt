-- ===== src/DhcpServer/Ending.antt =====
-- dhcp/src/DhcpServer.cpp: every round of `main_loop` ends.
use klevret.Prelude.{ℕ, ◌≡◌, ◌⊎◌, refl, ◌==◌, if◌then◌else◌, Bool-cases, inl, inr, List, [], ◌∷◌}
use klevret.Prelude.{
  Option, some, none, Option-cases, All, Result, ok, undefined, ◌>>=◌, >>=-eq-ok, Ends, >>=-Ends,
  deref, at, get_elem?, ◌||◌,
}
use klevret.Endians.{Endian, IsByte}
use klevret.IpAddress.{Ipv4Address, of_uint32_t}
use klevret.HardwareAddress.{MacAddress}
use klevret.HardwareAddress.Laws.{mac_order}
use klevret.Prelude.Map
use klevret.DhcpOption.{RealValue}
use klevret.DhcpMessage
use klevret.DhcpMessage.{DhcpMessage, of_data}
use klevret.DhcpMessage.Ending.{of_data-Ends}
use klevret.AddressPool.{AddressPool, get_address, first_free, is_ip_reserved, is_ip_taken}
use klevret.DhcpServer.{DhcpServer, Xids, NetworkInterface, UdpPacketWithInfo, L3Address}
use klevret.DhcpServer.{find_xid, find_interface, find_option, get_uint8, get_ipv4, make_reply}
use klevret.DhcpServer.{make_offer, make_acknowledge, have_free_address, take_address}
use klevret.DhcpServer.{take_address_from, send_reply, handle_discover, handle_request}
use klevret.DhcpServer.{handle_packet, main_loop_round, dhcp_discover, dhcp_request}
use klevret.DhcpServer.Replies.{server_address, make_offer_wire, make_acknowledge_wire}

deref-Ends : {A : Type 0} (o : Option A) → Ends (deref o)
deref-Ends none = tt
deref-Ends (some a) = tt

at-Ends : {A : Type 0} (o : Option A) → Ends (at o)
at-Ends none = tt
at-Ends (some a) = tt

get_ipv4-Ends : (a : L3Address) → Ends (get_ipv4 a)
unfolding get_ipv4
get_ipv4-Ends (L3Address.ipv4 a) = tt
get_ipv4-Ends L3Address.ipv6 = tt

get_uint8-Ends : (v : RealValue) → Ends (get_uint8 v)
unfolding get_uint8
get_uint8-Ends (RealValue.uint8 v) = tt
get_uint8-Ends _ = tt

module _ (native : Endian) where
  first_free-Ends :
      (p : AddressPool) (mac : MacAddress) (ips : List Ipv4Address)
      → Ends (first_free native p mac ips)
  unfolding first_free
  first_free-Ends p mac [] = tt
  first_free-Ends p mac (ip ∷ ips) =
      let rest = first_free-Ends p mac ips in
      elim (Bool-cases (is_ip_reserved native p ip || is_ip_taken native p ip)) [
        | inl e ↦ rw (e, first_free) rest
        | inr e ↦ rw (e, first_free) tt
      ]

  get_address-Ends : (p : AddressPool) (mac : MacAddress) → Ends (get_address native p mac)
  unfolding get_address
  get_address-Ends p mac = elim (Option-cases (Map.find mac_order mac p.reserved_mac_addresses)) [
    | inr (a, e) ↦ rw (e, get_address) tt
    | inl e ↦ elim (Option-cases (Map.find mac_order mac p.taken_mac_addresses)) [
      | inr (a, f) ↦ rw (e, f, get_address) tt
      | inl f ↦ elim (Option-cases (Map.find mac_order mac p.cache)) [
        | inl g ↦ rw (e, f, g, get_address) (first_free-Ends p mac p.included_addresses)
        | inr (a, g) ↦ rw (e, f, g, get_address) (rw f tt)
      ]
    ]
  ]

  take_address_from-Ends :
      (pools : List AddressPool) (mac : MacAddress) → Ends (take_address_from native pools mac)
  unfolding take_address_from
  take_address_from-Ends [] mac = tt
  take_address_from-Ends (p ∷ pools) mac =
      >>=-Ends (get_address native p mac) _ (get_address-Ends p mac) (λ r. tt)

  take_address-Ends : (s : DhcpServer) (mac : MacAddress) → Ends (take_address native s mac)
  unfolding take_address
  take_address-Ends s mac =
      >>=-Ends (take_address_from native s.address_pools mac) _
        (take_address_from-Ends s.address_pools mac) (λ r. tt)

  -- A reply that is written, or that reads the client's address through a null pointer.
  send_reply-Ends :
      (interface : NetworkInterface) (reply : Result DhcpMessage) (s : DhcpServer) (xids : Xids)
      → ((d : List ℕ) × ((reply >>= DhcpMessage.to_network_data native) ≡ ok d))
        ⊎ (reply ≡ undefined)
      → Ends (send_reply native interface reply s xids)
  unfolding send_reply
  send_reply-Ends interface reply s xids (inr e) = rw (e, send_reply) tt
  send_reply-Ends interface reply s xids (inl (d, h)) =
      let (m, e, f) = >>=-eq-ok reply _ h in
      rw (e, send_reply)
        (rw f (
          >>=-Ends (get_ipv4 interface.broadcast_address) _
            (get_ipv4-Ends interface.broadcast_address) (λ b. tt)))

  offer_sent :
      (packet : DhcpMessage) (ip : Ipv4Address)
      → ((d : List ℕ) × ((make_offer native packet ip >>= DhcpMessage.to_network_data native)
            ≡ ok d))
        ⊎ (make_offer native packet ip ≡ undefined)
  unfolding make_offer make_reply
  offer_sent packet ip = elim (Option-cases packet.chaddr) [
    | inl e ↦ inr (rw (server_address, e, make_offer, make_reply) refl)
    | inr (mac, e) ↦ inl (_, make_offer_wire native packet mac ip e)
  ]

  acknowledge_sent :
      (packet : DhcpMessage) (ip : Ipv4Address)
      → ((d : List ℕ) × ((make_acknowledge native packet ip >>= DhcpMessage.to_network_data native)
            ≡ ok d))
        ⊎ (make_acknowledge native packet ip ≡ undefined)
  unfolding make_acknowledge make_reply
  acknowledge_sent packet ip = elim (Option-cases packet.chaddr) [
    | inl e ↦ inr (rw (server_address, e, make_acknowledge, make_reply) refl)
    | inr (mac, e) ↦ inl (_, make_acknowledge_wire native packet mac ip e)
  ]

  handle_discover-Ends :
      (s : DhcpServer) (xids : Xids) (interface : NetworkInterface) (packet : DhcpMessage)
      → Ends (handle_discover native s xids interface packet)
  unfolding handle_discover
  handle_discover-Ends s xids interface packet =
      >>=-Ends (deref packet.chaddr) _ (deref-Ends packet.chaddr) (λ mac.
        >>=-Ends (take_address native s mac) _ (take_address-Ends s mac) (λ taken.
          send_reply-Ends interface (make_offer native packet taken.0) taken.1 _
            (offer_sent packet taken.0)))

  handle_request-Ends :
      (s : DhcpServer) (xids : Xids) (interface : NetworkInterface) (packet : DhcpMessage)
      → Ends (handle_request native s xids interface packet)
  unfolding handle_request
  handle_request-Ends s xids interface packet = elim (Option-cases (find_xid packet.xid xids)) [
    | inl e ↦
        rw (e, handle_request)
          (send_reply-Ends interface (make_acknowledge native packet (of_uint32_t native 0)) s _
            (acknowledge_sent packet (of_uint32_t native 0)))
    | inr (ip, e) ↦
        rw (e, handle_request)
          (send_reply-Ends interface (make_acknowledge native packet ip) s _
            (acknowledge_sent packet ip))
  ]

  by_type-Ends :
      (s : DhcpServer) (xids : Xids) (interface : NetworkInterface) (packet : DhcpMessage)
      (msg_type : ℕ)
      → Ends (
          if msg_type == dhcp_discover
          then handle_discover native s xids interface packet
          else if msg_type == dhcp_request
          then handle_request native s xids interface packet
          else ok (s, xids, []))
  by_type-Ends s xids interface packet msg_type = elim (Bool-cases (msg_type == dhcp_discover)) [
    | inl e ↦ rw e (handle_discover-Ends s xids interface packet)
    | inr e ↦ elim (Bool-cases (msg_type == dhcp_request)) [
      | inl f ↦ rw (e, f) (handle_request-Ends s xids interface packet)
      | inr f ↦ rw (e, f) tt
    ]
  ]

  handle_packet-Ends :
      (s : DhcpServer) (xids : Xids) (interface : NetworkInterface) (packet : DhcpMessage)
      → Ends (handle_packet native s xids interface packet)
  unfolding handle_packet
  handle_packet-Ends s xids interface packet = elim (Bool-cases (packet.op == 1)) [
    | inr e ↦ rw (e, handle_packet) tt
    | inl e ↦ elim (Option-cases (find_option 53 packet.options)) [
      | inl f ↦ rw (e, f, handle_packet) tt
      | inr (o, f) ↦
          rw (e, f, handle_packet)
            (>>=-Ends (at (get_elem? o.real_values 0)) _ (at-Ends (get_elem? o.real_values 0))
              (λ value.
                >>=-Ends (get_uint8 value) _ (get_uint8-Ends value)
                  (λ msg_type. by_type-Ends s xids interface packet msg_type)))
    ]
  ]

  -- A round of `main_loop` ends, whatever bytes it reads: by going on to the next round, by an
  -- exception or by undefined behaviour.
  pub main_loop_round-Ends :
      (s : DhcpServer) (xids : Xids) (packet : UdpPacketWithInfo)
      → All IsByte packet.packet_data
      → Ends (main_loop_round native s xids (some packet))
  unfolding main_loop_round
  main_loop_round-Ends s xids packet h = elim (Bool-cases (have_free_address native s)) [
    | inr e ↦ rw (e, main_loop_round) tt
    | inl e ↦
        rw (e, main_loop_round)
          (>>=-Ends (deref (find_interface packet.interface_index s.network_interfaces)) _
            (deref-Ends (find_interface packet.interface_index s.network_interfaces))
            (λ interface.
              >>=-Ends (of_data native packet.packet_data) _
                (of_data-Ends native packet.packet_data h)
                (λ message. handle_packet-Ends s xids interface message)))
  ]
