-- ===== src/Tests/Interfaces.antt =====
-- dhcp/src/NetworkInterface.cpp and the packets of dhcp/src/UdpListener.cpp on a host with a loopback
-- interface and an Ethernet interface.
use klevret.Prelude.{
  ℕ, ◌+◌, ◌*◌, ◌-◌, ◌/◌, ◌%◌, ◌≡◌, ◌<◌, All, refl, arith, ltb, if◌then◌else◌, List, [], ◌∷◌, ◌++◌,
  take, drop, replicate,
}
use klevret.Prelude.{map, true, Option, some, none, Result, ok}
use klevret.Endians.{little, IsByte}
use klevret.IpAddress
use klevret.IpAddress.{Ipv4Address, IsValid, data_of}
use klevret.IpAddress.Text.{of_string-to_string}
use klevret.HardwareAddress
use klevret.HardwareAddress.{MacAddress}
use klevret.NetworkInterface.{System, HostInterface, get_all_interfaces}
use klevret.NetworkInterface.Entries.{
  Told, told, other, entry_of, mask_with, IsAnswered, interfaces_of,
}
use klevret.NetworkInterface.Entries.{get_all_interfaces-told}
use klevret.Tests.{ip, mac}
use klevret.UdpListener.{Fragment, sum_words}
use klevret.UdpListener.Packet.{CLibrary, packet_bytes}
use klevret.UdpListener.Packet.Header.{packet_bytes-checksum}

-- A C library that reads the texts digit by digit.
abbrev nibble : ℕ → ℕ
nibble c = if ltb c 58 then c - 48 else c - 87

abbrev read_pairs : List ℕ → List ℕ
read_pairs (a ∷ b ∷ _ ∷ rest) = (nibble a * 16 + nibble b) ∷ read_pairs rest
read_pairs (a ∷ b ∷ []) = (nibble a * 16 + nibble b) ∷ []
read_pairs _ = []

abbrev bytes_or_none : Result Ipv4Address → List ℕ
bytes_or_none (ok a) = data_of a
bytes_or_none _ = []

nibble_digit : (d : ℕ) → d < 16 → nibble (if ltb d 10 then b'0' + d else b'a' + (d - 10)) ≡ d
nibble_digit d h = ground arith

pair_byte :
    (b : ℕ)
    → IsByte b
    → nibble (if ltb (b / 16) 10 then b'0' + b / 16 else b'a' + (b / 16 - 10)) * 16
        + nibble (if ltb (b % 16) 10 then b'0' + b % 16 else b'a' + (b % 16 - 10))
      ≡ b
pair_byte b h =
    rw (nibble_digit (b / 16) (omega arith), nibble_digit (b % 16) (omega arith)) (omega arith)

scan :
    (m : MacAddress)
    → All IsByte (HardwareAddress.data_of m)
    → read_pairs (HardwareAddress.to_string m) ≡ HardwareAddress.data_of m
unfolding HardwareAddress.to_string HardwareAddress.join_hex HardwareAddress.hex_byte
scan m (a, (b, (c, (d, (e, (f, _)))))) =
    rw
      (
        pair_byte m.byte_0 a,
        pair_byte m.byte_1 b,
        pair_byte m.byte_2 c,
        pair_byte m.byte_3 d,
        pair_byte m.byte_4 e,
        pair_byte m.byte_5 f,
      )
      refl

abbrev library : CLibrary
library = record {
  scan_mac = read_pairs;
  inet_addr = λ text. bytes_or_none (IpAddress.of_string text);
  scan_mac-to_string = scan;
  inet_addr-to_string = λ a v. rw (of_string-to_string a v) refl;
}

-- "lo" and "eth0".
abbrev lo : List ℕ
lo = b'l' ∷ b'o' ∷ []

abbrev eth_0 : List ℕ
eth_0 = b'e' ∷ b't' ∷ b'h' ∷ b'0' ∷ []

abbrev subnet : Ipv4Address
subnet = record { octet_0 = 255; octet_1 = 255; octet_2 = 255; octet_3 = 0 }

-- The family of packet sockets, and an Ethernet interface.
abbrev list : List Told
list = other lo 1 17 ∷ told eth_0 2 (ip 1) (ip 255) subnet (mac 1) 1500 ∷ []

abbrev for_eth_0 : {A : Type 0} → A → List ℕ → Option A
for_eth_0 a (_ ∷ _ ∷ _ ∷ _ ∷ _) = some a
for_eth_0 a _ = none

abbrev index_of : List ℕ → Option ℕ
index_of (_ ∷ _ ∷ []) = some 1
index_of (_ ∷ _ ∷ _ ∷ []) = some 3
index_of _ = some 2

abbrev system : System
system = record {
  ifindex = index_of;
  hwaddr = for_eth_0 (HardwareAddress.data_of (mac 1) ++ (0 ∷ 0 ∷ 0 ∷ 0 ∷ 0 ∷ 0 ∷ 0 ∷ 0 ∷ []));
  mtu_of = for_eth_0 1500;
  broadaddr = for_eth_0 (0 ∷ 0 ∷ (data_of (ip 255) ++ (0 ∷ 0 ∷ 0 ∷ 0 ∷ 0 ∷ 0 ∷ 0 ∷ 0 ∷ [])));
}

subnet-IsValid : IsValid subnet
subnet-IsValid = record {
  byte_0 = omega arith;
  byte_1 = omega arith;
  byte_2 = omega arith;
  byte_3 = omega arith;
}

ip-IsValid : (n : ℕ) → IsByte n → IsValid (ip n)
ip-IsValid n h = record {
  byte_0 = omega arith;
  byte_1 = omega arith;
  byte_2 = omega arith;
  byte_3 = h;
}

answers : All (IsAnswered system) list
answers = (
  (refl, refl),
  (
    (
      ip-IsValid 1 (omega arith),
      ip-IsValid 255 (omega arith),
      subnet-IsValid,
      refl,
      refl,
      refl,
      refl,
    ),
    tt,
  ),
)

get_all_interfaces-told_example :
    get_all_interfaces little system (map entry_of list) ≡ ok (interfaces_of list)
get_all_interfaces-told_example = get_all_interfaces-told little system list answers

mac_bytes : (n : ℕ) → IsByte n → All IsByte (HardwareAddress.data_of (mac n))
mac_bytes n h = (omega arith, (omega arith, (omega arith, (omega arith, (omega arith, (h, tt))))))

abbrev fragment : Fragment
fragment = record {
  more_fragments = true;
  fragment_offset = 1024;
  fragment_data = replicate 1024 7;
}

abbrev interface : HostInterface
interface = record {
  name = eth_0;
  linux_interface_index = 2;
  network_address = ip 1;
  broadcast_address = ip 255;
  subnet_mask = mask_with subnet;
  mac_address = mac 1;
  mtu = 1500;
}

packet_bytes-checksum_example :
    sum_words little
        (take 20 (drop 14 (packet_bytes library little fragment 4660 interface (mac 2) (ip 9))))
      % 65535
    ≡ 0
packet_bytes-checksum_example =
    packet_bytes-checksum library little fragment 4660 interface (mac 2) (ip 9) (omega arith)
      (mac_bytes 1 (omega arith)) (mac_bytes 2 (omega arith)) (ip-IsValid 1 (omega arith))
      (ip-IsValid 9 (omega arith))
