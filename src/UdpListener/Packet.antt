-- ===== src/UdpListener/Packet.antt =====
-- dhcp/src/UdpListener.cpp, `send_packet`: the bytes of a packet. `sscanf` and `inet_addr` of the C
-- library are an interface, which says what they make of the texts that `to_string` writes.
pub mod Header
use klevret.Prelude.{
  ℕ, ◌+◌, ◌/◌, ◌%◌, ◌^◌, ◌≡◌, bit_or, if◌then◌else◌, Bool, List, [], ◌∷◌, ◌++◌, length, All,
}
use klevret.Endians.{Endian, IsByte, bit_cast_array}
use klevret.IpAddress
use klevret.IpAddress.{Ipv4Address, IsValid}
use klevret.HardwareAddress
use klevret.HardwareAddress.{MacAddress}
use klevret.NetworkInterface.{HostInterface}
use klevret.UdpListener.{Fragment, calculate_checksum}

pub record CLibrary : Type 0 where
  -- The six bytes that `sscanf` fills by "%hhx:%hhx:%hhx:%hhx:%hhx:%hhx".
  pub scan_mac : List ℕ → List ℕ
  -- The bytes of the address in memory.
  pub inet_addr : List ℕ → List ℕ
  pub scan_mac-to_string :
      (m : MacAddress)
      → All IsByte (HardwareAddress.data_of m)
      → scan_mac (HardwareAddress.to_string m) ≡ HardwareAddress.data_of m
  pub inet_addr-to_string :
      (a : Ipv4Address) → IsValid a → inet_addr (IpAddress.to_string a) ≡ IpAddress.data_of a

-- `htons`, as the two bytes in memory.
abbrev pub htons : ℕ → List ℕ
htons v = (v / 256 % 256) ∷ (v % 256) ∷ []

-- `(more_fragments ? IP_MF : 0) | fragment_offest`
abbrev pub frag_off : Bool → ℕ → ℕ
frag_off more_fragments fragment_offset =
    bit_or (if more_fragments then 8192 else 0) fragment_offset

-- The header of 20 bytes with the given bytes of `check`. `id` is stored in the order of the host.
abbrev pub ip_header : Endian → ℕ → ℕ → List ℕ → List ℕ → List ℕ → List ℕ
ip_header native id off check saddr daddr =
    (69 ∷ 0 ∷ htons (20 + 8 + 1024))
    ++ (bit_cast_array native 2 id
        ++ (htons off ++ ((64 ∷ 17 ∷ []) ++ (check ++ (saddr ++ daddr)))))

module _ (libc : CLibrary) (native : Endian) where
  abbrev pub checked_header : ℕ → ℕ → Ipv4Address → Ipv4Address → List ℕ
  checked_header id off source destination =
      let saddr = libc.inet_addr (IpAddress.to_string source) in
      let daddr = libc.inet_addr (IpAddress.to_string destination) in
      let check = calculate_checksum native (ip_header native id off (0 ∷ 0 ∷ []) saddr daddr) in
      ip_header native id off (bit_cast_array native 2 check) saddr daddr

  -- The packet that `sendto` is given.
  unfoldable pub packet_bytes : Fragment → ℕ → HostInterface → MacAddress → Ipv4Address → List ℕ
  packet_bytes fragment id iface dst_mac dst_ip =
      libc.scan_mac (HardwareAddress.to_string dst_mac)
      ++ (libc.scan_mac (HardwareAddress.to_string iface.mac_address)
          ++ (htons 2048
              ++ (checked_header id (frag_off fragment.more_fragments fragment.fragment_offset)
                    iface.network_address dst_ip
                  ++ (htons 67
                      ++ (htons 68
                          ++ (htons (8 + 1024) ++ ((0 ∷ 0 ∷ []) ++ fragment.fragment_data)))))))
