-- ===== src/DhcpServer/Replies.antt =====
-- dhcp/src/DhcpServer.cpp: what `make_offer` and `make_acknowledge` send.
use klevret.Prelude.{ℕ, ◌≡◌, refl, List, [], ◌∷◌, ◌++◌, some, Result, ok, ◌>>=◌}
use klevret.Prelude.{pos, ◌⊎◌, inl, inr, ◌∙◌, append-nil, subst, sym}
use klevret.Endians.{Endian, little, big, in_memory, to_le, from_le, network_range_to_host_endian}
use klevret.Endians.{host_to_network_endian_array}
use klevret.Endians.Laws.{to_be, host_to_network_endian_array-to_be}
use klevret.IpAddress
use klevret.IpAddress.Mask
use klevret.IpAddress.{read_bytes}
use klevret.OptionDescription.{
  is_correct_uint, satisfies_uint, get_one_element_payload_length_in_bytes,
}
use klevret.OptionDescription.Table.{options_descriptions, find_description}
use klevret.DhcpOption.{DhcpOption, make_option, payload_loop, process_element, process_uint_enum}
use klevret.DhcpOption.{process_subnet_mask, process_ip_address, process_uint32, read_range}
use klevret.DhcpOption.Encode
use klevret.IpAddress.{Ipv4Address, of_uint32_t}
use klevret.HardwareAddress.{MacAddress}
use klevret.DhcpMessage.{DhcpMessage, default_message, to_network_data, write_header, write_options}
use klevret.DhcpServer.{make_reply, server_name, make_offer, make_acknowledge, dhcp_offer, dhcp_ack}

bytes_86400 : ◌≡◌ {A = Result (List ℕ)} (ok (to_be 4 86400)) (ok (0 ∷ 1 ∷ 81 ∷ 128 ∷ []))
unfolding to_le
bytes_86400 = refl

-- The header of a reply.
abbrev pub reply_header : Endian → DhcpMessage → MacAddress → Ipv4Address → List ℕ
reply_header native packet mac ip =
    write_header
      (record (default_message native) {
        op = 2;
        xid = packet.xid;
        yiaddr = ip;
        siaddr = record { octet_0 = 172; octet_1 = 18; octet_2 = 1; octet_3 = 1 };
      })
      mac

-- The cookie and the options of a reply of type `message_type`.
abbrev pub reply_options : Endian → ℕ → List ℕ
reply_options native message_type =
    99
    ∷ 130
    ∷ 83
    ∷ 99
    ∷ 53
    ∷ 1
    ∷ message_type
    ∷ 1
    ∷ 4
    ∷ 255
    ∷ 255
    ∷ 255
    ∷ 0
    ∷ 3
    ∷ 4
    ∷ 172
    ∷ 18
    ∷ 1
    ∷ 1
    ∷ 51
    ∷ 4
    ∷ (in_memory native (128 ∷ 81 ∷ 1 ∷ 0 ∷ []) ++ (255 ∷ []))

-- An option that is made from `payload`, and what is sent for it.
abbrev Sends : Endian → ℕ → ℕ → List ℕ → List ℕ → Type 0
Sends native code n payload sent =
    (o : DhcpOption) × (make_option native code (pos n) n payload ≡ ok o)
    × (Encode.to_network_data native o ≡ ok sent)

message_type-Sends :
    (native : Endian) (message_type : ℕ)
    → (message_type ≡ dhcp_offer) ⊎ (message_type ≡ dhcp_ack)
    → Sends native 53 1 (message_type ∷ []) (53 ∷ 1 ∷ message_type ∷ [])
unfolding make_option find_description options_descriptions payload_loop process_element
    process_uint_enum is_correct_uint satisfies_uint get_one_element_payload_length_in_bytes
    Encode.to_network_data Encode.values_to_network_data Encode.value_to_network_data
message_type-Sends native message_type (inl e) =
    subst (λ t. Sends native 53 1 (t ∷ []) (53 ∷ 1 ∷ t ∷ [])) (sym e) (_, refl, refl)
message_type-Sends native message_type (inr e) =
    subst (λ t. Sends native 53 1 (t ∷ []) (53 ∷ 1 ∷ t ∷ [])) (sym e) (_, refl, refl)

subnet_mask-Sends :
    (native : Endian)
    → Sends native 1 4 (255 ∷ 255 ∷ 255 ∷ 0 ∷ []) (1 ∷ 4 ∷ 255 ∷ 255 ∷ 255 ∷ 0 ∷ [])
unfolding make_option find_description options_descriptions payload_loop process_element
    process_subnet_mask Mask.from_big_endian_bytes read_bytes
    get_one_element_payload_length_in_bytes Encode.to_network_data Encode.values_to_network_data
    Encode.value_to_network_data
subnet_mask-Sends native = (_, refl, refl)

router-Sends :
    (native : Endian) → Sends native 3 4 (172 ∷ 18 ∷ 1 ∷ 1 ∷ []) (3 ∷ 4 ∷ 172 ∷ 18 ∷ 1 ∷ 1 ∷ [])
unfolding make_option find_description options_descriptions payload_loop process_element
    process_ip_address IpAddress.from_big_endian_bytes read_bytes
    get_one_element_payload_length_in_bytes Encode.to_network_data Encode.values_to_network_data
    Encode.value_to_network_data
router-Sends native = (_, refl, refl)

lease_time-Sends :
    (native : Endian)
    → Sends native 51 4 (0 ∷ 1 ∷ 81 ∷ 128 ∷ []) (51 ∷ 4 ∷ in_memory native (128 ∷ 81 ∷ 1 ∷ 0 ∷ []))
unfolding make_option find_description options_descriptions payload_loop process_element
    process_uint32 read_range network_range_to_host_endian is_correct_uint satisfies_uint
    get_one_element_payload_length_in_bytes Encode.to_network_data Encode.values_to_network_data
    Encode.value_to_network_data from_le to_le
lease_time-Sends little = (_, refl, refl)
lease_time-Sends big = (_, refl, refl)

pub server_address :
    IpAddress.of_string server_name
    ≡ ok (record { octet_0 = 172; octet_1 = 18; octet_2 = 1; octet_3 = 1 })
unfolding IpAddress.of_string IpAddress.parse_octets IpAddress.parse_octet IpAddress.octet_loop
server_address = refl

make_reply_wire :
    (native : Endian) (message_type : ℕ) (lease_time : Result (List ℕ)) (packet : DhcpMessage)
    (mac : MacAddress) (ip : Ipv4Address)
    → (message_type ≡ dhcp_offer) ⊎ (message_type ≡ dhcp_ack)
    → lease_time ≡ ok (0 ∷ 1 ∷ 81 ∷ 128 ∷ [])
    → packet.chaddr ≡ some mac
    → (make_reply native message_type lease_time packet ip >>= to_network_data native)
      ≡ ok (reply_header native packet mac ip ++ reply_options native message_type)
unfolding make_reply to_network_data write_header write_options
make_reply_wire native message_type lease_time packet mac ip t l h =
    let (o53, e53, f53) = message_type-Sends native message_type t in
    let (o1, e1, f1) = subnet_mask-Sends native in
    let (o3, e3, f3) = router-Sends native in
    let (o51, e51, f51) = lease_time-Sends native in
    rw (h, l, server_address, e53, e1, e3, e51, make_reply)
      (rw (f53, f1, f3, f51, write_options)
        (rw (append-nil (in_memory native (128 ∷ 81 ∷ 1 ∷ 0 ∷ []))) refl))

-- The datagram of an offer, on a host of either byte order. The lease time 86400 stands in it in
-- the host's order: on a little-endian host the bytes 128, 81, 1, 0.
pub make_offer_wire :
    (native : Endian) (packet : DhcpMessage) (mac : MacAddress) (ip : Ipv4Address)
    → packet.chaddr ≡ some mac
    → (make_offer native packet ip >>= to_network_data native)
      ≡ ok (reply_header native packet mac ip ++ reply_options native dhcp_offer)
unfolding make_offer
make_offer_wire native packet mac ip h =
    make_reply_wire native dhcp_offer (host_to_network_endian_array native 4 4 86400) packet mac ip
      (inl refl) (host_to_network_endian_array-to_be native 4 86400 ∙ bytes_86400) h

-- The datagram of an acknowledgement is that of an offer but for the type of the message.
pub make_acknowledge_wire :
    (native : Endian) (packet : DhcpMessage) (mac : MacAddress) (ip : Ipv4Address)
    → packet.chaddr ≡ some mac
    → (make_acknowledge native packet ip >>= to_network_data native)
      ≡ ok (reply_header native packet mac ip ++ reply_options native dhcp_ack)
unfolding make_acknowledge
make_acknowledge_wire native packet mac ip h =
    make_reply_wire native dhcp_ack _ packet mac ip (inr refl) refl h
