-- ===== src/DhcpServer.antt =====
-- dhcp/src/DhcpServer.cpp and DhcpServer.hpp: the pools of a server, the offers and
-- acknowledgements, and one round of `main_loop`. The map `xids` is local to `main_loop`, so the
-- rounds hand it on. What a round sends is a list of datagrams with their broadcast addresses.
pub mod Pools
pub mod Replies
pub mod Rounds
pub mod Ending
pub mod Effects
pub mod Holding
pub mod Traffic
pub mod Handshake
pub mod Polling
pub mod Sending
use klevret.Prelude.{
  ℕ, zero, suc, ◌*◌, ◌/◌, ◌%◌, ◌^◌, ◌==◌, leb, not, ◌&&◌, ◌||◌, if◌then◌else◌, Bool, true, false,
}
use klevret.Prelude.{
  List, [], ◌∷◌, ◌++◌, length, Option, some, none, pos, Result, ok, throw, undefined,
}
use klevret.Prelude.{throw_if, deref, at, get_elem?, bad_variant_access, ◌>>=◌, ◌>>◌}
use klevret.Endians.{Endian, host_to_network_endian_array}
use klevret.IpAddress
use klevret.IpAddress.{Ipv4Address, of_uint32_t, to_uint32_t}
use klevret.HardwareAddress.{MacAddress, ethernet_10mb}
use klevret.DhcpOption.{DhcpOption, RealValue, uint8, make_option}
use klevret.DhcpMessage.{DhcpMessage, default_message, of_data}
use klevret.DhcpMessage
use klevret.AddressPool.{AddressPool, get_address}

-- `L3_address_t`. Nothing here reads an IPv6 address.
pub data L3Address : Type 0 where
  ipv4 : Ipv4Address → L3Address
  ipv6 : L3Address

-- The fields of `NetworkInterface` that the server reads.
pub record NetworkInterface : Type 0 where
  pub linux_interface_index : ℕ
  pub broadcast_address : L3Address

pub record UdpPacketWithInfo : Type 0 where
  pub packet_data : List ℕ
  pub interface_index : ℕ

pub record DhcpServer : Type 0 where
  pub network_interfaces : List NetworkInterface
  pub address_pools : List AddressPool

abbrev pub Xids : Type 0
Xids = List (ℕ × Ipv4Address)

-- `xids[xid]` on an entry that may be missing, and `xids[xid] = ip`.
unfoldable pub find_xid : ℕ → Xids → Option Ipv4Address
find_xid xid [] = none
find_xid xid ((x, ip) ∷ xids) = if x == xid then some ip else find_xid xid xids

unfoldable pub assign_xid : ℕ → Ipv4Address → Xids → Xids
assign_xid xid ip [] = (xid, ip) ∷ []
assign_xid xid ip ((x, a) ∷ xids) =
    if x == xid then (xid, ip) ∷ xids else (x, a) ∷ assign_xid xid ip xids

abbrev pub dhcp_discover : ℕ
dhcp_discover = 1

abbrev pub dhcp_offer : ℕ
dhcp_offer = 2

abbrev pub dhcp_request : ℕ
dhcp_request = 3

abbrev pub dhcp_ack : ℕ
dhcp_ack = 5

-- "172.18.1.1"
abbrev pub server_name : List ℕ
server_name = b'1' ∷ b'7' ∷ b'2' ∷ b'.' ∷ b'1' ∷ b'8' ∷ b'.' ∷ b'1' ∷ b'.' ∷ b'1' ∷ []

-- `std::find_if` on the interfaces.
unfoldable pub find_interface : ℕ → List NetworkInterface → Option NetworkInterface
find_interface index [] = none
find_interface index (i ∷ interfaces) =
    if i.linux_interface_index == index then some i else find_interface index interfaces

unfoldable pub find_option : ℕ → List DhcpOption → Option DhcpOption
find_option code [] = none
find_option code (o ∷ options) =
    if o.description.code == code then some o else find_option code options

-- `std::get<uint8_t>` and `std::get<IPv4Address>`
unfoldable pub get_uint8 : RealValue → Result ℕ
get_uint8 (uint8 v) = ok v
get_uint8 _ = throw bad_variant_access

unfoldable pub get_ipv4 : L3Address → Result Ipv4Address
get_ipv4 (ipv4 a) = ok a
get_ipv4 ipv6 = throw bad_variant_access

module _ (native : Endian) where
  -- What `make_offer` and `make_acknowledge` have in common: the header, then the options 53, 1, 3
  -- and 51 in this order. The copy of the client's address is read through `packet.chaddr`.
  unfoldable pub make_reply : ℕ → Result (List ℕ) → DhcpMessage → Ipv4Address → Result DhcpMessage
  make_reply message_type lease_time packet ip = do
    siaddr ← IpAddress.of_string server_name
    l2_address ← deref packet.chaddr
    option_53 ← make_option native 53 (pos 1) 1 (message_type ∷ [])
    option_1 ← make_option native 1 (pos 4) 4 (255 ∷ 255 ∷ 255 ∷ 0 ∷ [])
    option_3 ← make_option native 3 (pos 4) 4 (172 ∷ 18 ∷ 1 ∷ 1 ∷ [])
    option_51_data ← lease_time
    option_51 ← make_option native 51 (pos 4) 4 option_51_data
    ok (record (default_message native) {
      op = 2;
      htype = ethernet_10mb;
      hlen = 6;
      hops = 0;
      xid = packet.xid;
      ciaddr = of_uint32_t native 0;
      yiaddr = ip;
      siaddr = siaddr;
      giaddr = of_uint32_t native 0;
      chaddr = some l2_address;
      options = option_53 ∷ option_1 ∷ option_3 ∷ option_51 ∷ [];
    })

  unfoldable pub make_offer : DhcpMessage → Ipv4Address → Result DhcpMessage
  make_offer = make_reply dhcp_offer (host_to_network_endian_array native 4 4 86400)

  -- The four bytes of 86400, taken out by shifts of a uint32_t.
  unfoldable pub make_acknowledge : DhcpMessage → Ipv4Address → Result DhcpMessage
  make_acknowledge = make_reply dhcp_ack (
      ok (
        86400 / 2 ^ 24
        ∷ (86400 * 2 ^ 8 % 2 ^ 32) / 2 ^ 24
        ∷ (86400 * 2 ^ 16 % 2 ^ 32) / 2 ^ 24
        ∷ 86400 % 256
        ∷ []))

  -- The two tests of the loop in `add_address_pool`.
  abbrev pub intersects : AddressPool → AddressPool → Bool
  intersects pool current_pool =
      let adding_start = to_uint32_t native pool.addresses_range.start in
      let adding_end = to_uint32_t native pool.addresses_range.end in
      let current_start = to_uint32_t native current_pool.addresses_range.start in
      let current_end = to_uint32_t native current_pool.addresses_range.end in
      (leb current_start adding_start && leb adding_start current_end)
      || (leb current_start adding_end && leb adding_end current_end)

  unfoldable pub intersects_any : AddressPool → List AddressPool → Bool
  intersects_any pool [] = false
  intersects_any pool (p ∷ pools) = if intersects pool p then true else intersects_any pool pools

  -- `false` stands for the error "Intersection of address pools".
  unfoldable pub add_address_pool : DhcpServer → AddressPool → Bool × DhcpServer
  add_address_pool s pool =
      if intersects_any pool s.address_pools
      then (false, s)
      else (true, record s { address_pools = s.address_pools ++ (pool ∷ []) })

  -- It tests only that there is a pool.
  unfoldable pub have_free_address : DhcpServer → Bool
  have_free_address s = if length s.address_pools == 0 then false else true

  -- `_address_pools.at(0).get_address(mac)`
  unfoldable pub take_address_from :
      List AddressPool → MacAddress → Result (Ipv4Address × List AddressPool)
  take_address_from [] mac = at none
  take_address_from (p ∷ pools) mac = do (ip, p') ← get_address native p mac; ok (ip, p' ∷ pools)

  unfoldable pub take_address : DhcpServer → MacAddress → Result (Ipv4Address × DhcpServer)
  take_address s mac = do
    (ip, pools) ← take_address_from s.address_pools mac
    ok (ip, record s { address_pools = pools })

  abbrev pub Outcome : Type 0
  Outcome = DhcpServer × Xids × List (List ℕ × Ipv4Address)

  -- What is handed to `broadcast_send_to`: the bytes of the reply and the address. The sending itself is in
  -- DhcpServer/Sending.
  unfoldable pub send_reply :
      NetworkInterface → Result DhcpMessage → DhcpServer → Xids → Result Outcome
  send_reply interface reply s xids = do
    message ← reply
    datagram ← DhcpMessage.to_network_data native message
    broadcast ← get_ipv4 interface.broadcast_address
    ok (s, xids, (datagram, broadcast) ∷ [])

  unfoldable pub handle_discover :
      DhcpServer → Xids → NetworkInterface → DhcpMessage → Result Outcome
  handle_discover s xids interface packet = do
    mac ← deref packet.chaddr
    (ip, s') ← take_address s mac
    send_reply interface (make_offer packet ip) s' (assign_xid packet.xid ip xids)

  -- `xids[xid]` makes an entry 0.0.0.0 where there was none.
  unfoldable pub handle_request :
      DhcpServer → Xids → NetworkInterface → DhcpMessage → Result Outcome
  handle_request s xids interface packet = elim (find_xid packet.xid xids) [
    | some ip ↦ send_reply interface (make_acknowledge packet ip) s xids
    | none ↦
        let ip = of_uint32_t native 0 in
        send_reply interface (make_acknowledge packet ip) s (assign_xid packet.xid ip xids)
  ]

  -- A packet of a client, by its option 53.
  unfoldable pub handle_packet : DhcpServer → Xids → NetworkInterface → DhcpMessage → Result Outcome
  handle_packet s xids interface packet =
      if not (packet.op == 1) then ok (s, xids, []) else elim (find_option 53 packet.options) [
        | none ↦ ok (s, xids, [])
        | some option_53 ↦ at (get_elem? option_53.real_values 0) >>= λ value.
            get_uint8 value >>= λ msg_type.
            if msg_type == dhcp_discover
            then handle_discover s xids interface packet
            else if msg_type == dhcp_request
            then handle_request s xids interface packet
            else ok (s, xids, [])
      ]

  -- One round of `while(true)`, with the first datagram of the input queue if there is one.
  unfoldable pub main_loop_round : DhcpServer → Xids → Option UdpPacketWithInfo → Result Outcome
  main_loop_round s xids none = ok (s, xids, [])
  main_loop_round s xids (some packet) = if not (have_free_address s) then ok (s, xids, []) else (do
    interface ← deref (find_interface packet.interface_index s.network_interfaces)
    dhcp_packet ← of_data native packet.packet_data
    handle_packet s xids interface dhcp_packet)
