-- ===== src/UdpListener/Packet/Header.antt =====
-- dhcp/src/UdpListener.cpp: what a receiver finds in a packet.
use klevret.Prelude.{ℕ, ◌+◌, ◌%◌, ◌^◌, ◌<◌, ◌≡◌, refl, arith, List, [], ◌∷◌, All, length}
use klevret.Prelude.{drop, take}
use klevret.Endians.{Endian, little, big, IsByte, to_le, bit_cast_array}
use klevret.IpAddress.{Ipv4Address, IsValid, data_of}
use klevret.HardwareAddress
use klevret.HardwareAddress.{MacAddress}
use klevret.NetworkInterface.{HostInterface}
use klevret.UdpListener.{Fragment, word, sum_words, calculate_checksum}
use klevret.UdpListener.Checksum.{calculate_checksum_sum}
use klevret.UdpListener.Packet.{CLibrary, frag_off, ip_header, packet_bytes}

-- Two bytes of the host's order, as a word.
word-bit_cast_array :
    (native : Endian) (v : ℕ)
    → v < 2 ^ 16
    → (a : ℕ) × (b : ℕ) × (bit_cast_array native 2 v ≡ a ∷ b ∷ [])
      × (word native a b ≡ v)
      × IsByte a
      × IsByte b
unfolding to_le
word-bit_cast_array little v h = (_, _, refl, omega arith, omega arith, omega arith)
word-bit_cast_array big v h = (_, _, refl, omega arith, omega arith, omega arith)

-- The header with its checksum.
abbrev sent_header : Endian → ℕ → ℕ → Ipv4Address → Ipv4Address → List ℕ
sent_header native id off a b =
    ip_header native id off
      (bit_cast_array native 2
        (calculate_checksum native (ip_header native id off (0 ∷ 0 ∷ []) (data_of a) (data_of b))))
      (data_of a) (data_of b)

checksum_bound : (native : Endian) (bytes : List ℕ) → calculate_checksum native bytes < 2 ^ 16
unfolding calculate_checksum
checksum_bound native bytes = omega arith

-- The sum of a header and of its checksum is that of the header with the checksum in it.
header_sum :
    (native : Endian) (id off check : ℕ) (a b : Ipv4Address)
    → id < 2 ^ 16
    → check < 2 ^ 16
    → sum_words native
        (ip_header native id off (bit_cast_array native 2 check) (data_of a) (data_of b))
      ≡ sum_words native (ip_header native id off (0 ∷ 0 ∷ []) (data_of a) (data_of b)) + check
unfolding sum_words
header_sum native id off check a b h k =
    let (c, d, e, w, _, _) = word-bit_cast_array native check k in
    let (i, j, f, _, _, _) = word-bit_cast_array native id h in
    rw (e, f) (omega (arith, w, zero_word native))
  where
    zero_word : (native : Endian) → word native 0 0 ≡ 0
    zero_word little = omega arith
    zero_word big = omega arith

header_bytes :
    (native : Endian) (id off : ℕ) (a b : Ipv4Address)
    → id < 2 ^ 16
    → IsValid a
    → IsValid b
    → All IsByte (ip_header native id off (0 ∷ 0 ∷ []) (data_of a) (data_of b))
      × (length (ip_header native id off (0 ∷ 0 ∷ []) (data_of a) (data_of b)) ≡ 20)
header_bytes native id off a b h v w =
    let (i, j, f, _, p, q) = word-bit_cast_array native id h in rw f (omega arith, refl)

-- The header of a packet is that of its addresses.
packet_bytes-ip_header :
    (libc : CLibrary) (native : Endian) (fragment : Fragment) (id : ℕ) (iface : HostInterface)
    (dst_mac : MacAddress) (dst_ip : Ipv4Address)
    → id < 2 ^ 16
    → All IsByte (HardwareAddress.data_of iface.mac_address)
    → All IsByte (HardwareAddress.data_of dst_mac)
    → IsValid iface.network_address
    → IsValid dst_ip
    → take 20 (drop 14 (packet_bytes libc native fragment id iface dst_mac dst_ip))
      ≡ sent_header native id
          (frag_off fragment.more_fragments fragment.fragment_offset)
          iface.network_address
          dst_ip
unfolding packet_bytes
packet_bytes-ip_header libc native fragment id iface dst_mac dst_ip h s t v w =
    let off = frag_off fragment.more_fragments fragment.fragment_offset in
    let zeroed =
      ip_header native id off (0 ∷ 0 ∷ []) (data_of iface.network_address) (data_of dst_ip) in
    let (c, d, e, _, _, _) =
      word-bit_cast_array native (calculate_checksum native zeroed)
        (checksum_bound native zeroed) in
    let (i, j, f, _, _, _) = word-bit_cast_array native id h in
    rw
      (
        libc.scan_mac-to_string dst_mac t,
        libc.scan_mac-to_string iface.mac_address s,
        libc.inet_addr-to_string iface.network_address v,
        libc.inet_addr-to_string dst_ip w,
        e,
        f,
      )
      refl

-- In every packet the 20 bytes behind the Ethernet header, which are the IP header with its checksum,
-- have words that sum up to a multiple of 65535, as a receiver checks, whatever the fragment: for
-- addresses of bytes and an id of 16 bits, on a host of either byte order.
pub packet_bytes-checksum :
    (libc : CLibrary) (native : Endian) (fragment : Fragment) (id : ℕ) (iface : HostInterface)
    (dst_mac : MacAddress) (dst_ip : Ipv4Address)
    → id < 2 ^ 16
    → All IsByte (HardwareAddress.data_of iface.mac_address)
    → All IsByte (HardwareAddress.data_of dst_mac)
    → IsValid iface.network_address
    → IsValid dst_ip
    → sum_words native
          (take 20 (drop 14 (packet_bytes libc native fragment id iface dst_mac dst_ip)))
        % 65535
      ≡ 0
packet_bytes-checksum libc native fragment id iface dst_mac dst_ip h s t v w =
    let off = frag_off fragment.more_fragments fragment.fragment_offset in
    let zeroed =
      ip_header native id off (0 ∷ 0 ∷ []) (data_of iface.network_address) (data_of dst_ip) in
    let (bytes, size) = header_bytes native id off iface.network_address dst_ip h v w in
    let bound = checksum_bound native zeroed in
    rw
      (
        packet_bytes-ip_header libc native fragment id iface dst_mac dst_ip h s t v w,
        header_sum native id off (calculate_checksum native zeroed) iface.network_address dst_ip h
            bound,
      )
      (calculate_checksum_sum native zeroed bytes (rw size (omega arith)))
