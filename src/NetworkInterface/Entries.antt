-- ===== src/NetworkInterface/Entries.antt =====
-- dhcp/src/NetworkInterface.cpp: the interfaces are those that the system has told of.
use klevret.Prelude.{ℕ, ◌≡◌, refl, ap, ◌∙◌, ◌==◌, false}
use klevret.Prelude.{List, [], ◌∷◌, ◌++◌, All, map, some, none, ok}
use klevret.Endians.{
  Endian, to_le, network_to_host_endian, network_array_to_host_endian, bit_cast_int,
}
use klevret.Endians.Laws.{host_to_network_endian_array-to_be}
use klevret.IpAddress
use klevret.IpAddress.{Ipv4Address, IsValid, data_of, to_uint32_t, of_uint32_t, read_bytes}
use klevret.IpAddress.Laws.{of_uint32_t-to_uint32_t}
use klevret.IpAddress.Text.{of_string-to_string}
use klevret.IpAddress.Mask
use klevret.IpAddress.Mask.{Ipv4SubnetMask}
use klevret.HardwareAddress
use klevret.HardwareAddress.{MacAddress}
use klevret.NetworkInterface.{
  SockAddr, IfAddrs, System, HostInterface, address_of, mask_of, af_inet,
}
use klevret.NetworkInterface.{make_interface, visit, get_all_interfaces}

-- The address and the mask are those of the bytes in memory, on every host.
address_of-data_of :
    (native : Endian) (a : Ipv4Address) → IsValid a → address_of native (data_of a) ≡ a
unfolding network_to_host_endian to_uint32_t network_array_to_host_endian
address_of-data_of native a v = of_uint32_t-to_uint32_t native a v

-- A mask with the bytes of an address.
abbrev pub mask_with : Ipv4Address → Ipv4SubnetMask
mask_with a = record {
  mask_0 = a.octet_0;
  mask_1 = a.octet_1;
  mask_2 = a.octet_2;
  mask_3 = a.octet_3;
}

mask_with-of_uint32_t :
    (native : Endian) (v : ℕ) → Mask.of_uint32_t native v ≡ mask_with (of_uint32_t native v)
unfolding Mask.of_uint32_t of_uint32_t to_le
mask_with-of_uint32_t native v = rw (host_to_network_endian_array-to_be native 4 v) refl

mask_of-data_of :
    (native : Endian) (a : Ipv4Address) → IsValid a → mask_of native (data_of a) ≡ mask_with a
mask_of-data_of native a v =
    mask_with-of_uint32_t native (network_to_host_endian native 4 (bit_cast_int native (data_of a)))
    ∙ ap mask_with (address_of-data_of native a v)

-- What the system tells of one interface: one with an IPv4 address, and one with another.
pub data Told : Type 0 where
  told :
      (name : List ℕ) (index : ℕ) (address broadcast netmask : Ipv4Address) (mac : MacAddress)
      (mtu : ℕ)
      → Told
  other : (name : List ℕ) (index family : ℕ) → Told

abbrev sock_addr : ℕ → Ipv4Address → SockAddr
sock_addr family a = record { sa_family = family; sin_addr = data_of a }

-- The entry of `getifaddrs`.
abbrev pub entry_of : Told → IfAddrs
entry_of (told name index address broadcast netmask mac mtu) = record {
  ifa_name = name;
  ifa_addr = some (sock_addr af_inet address);
  ifa_netmask = some (sock_addr af_inet netmask);
}
entry_of (other name index family) = record {
  ifa_name = name;
  ifa_addr = some (record { sa_family = family; sin_addr = [] });
  ifa_netmask = none;
}

-- The system answers what it tells: the addresses stand in `sa_data` from its first or its third byte
-- on.
abbrev pub IsAnswered : System → Told → Type 0
IsAnswered system (told name index address broadcast netmask mac mtu) =
    IsValid address
    × IsValid broadcast
    × IsValid netmask
    × (system.ifindex name ≡ some index)
    × (system.hwaddr name
        ≡ some (HardwareAddress.data_of mac ++ (0 ∷ 0 ∷ 0 ∷ 0 ∷ 0 ∷ 0 ∷ 0 ∷ 0 ∷ [])))
    × (system.mtu_of name ≡ some mtu)
    × (system.broadaddr name
        ≡ some (0 ∷ 0 ∷ (data_of broadcast ++ (0 ∷ 0 ∷ 0 ∷ 0 ∷ 0 ∷ 0 ∷ 0 ∷ 0 ∷ []))))
IsAnswered system (other name index family) =
    (system.ifindex name ≡ some index) × ((family == af_inet) ≡ false)

abbrev pub interfaces_of : List Told → List HostInterface
interfaces_of [] = []
interfaces_of (told name index address broadcast netmask mac mtu ∷ rest) =
    record {
      name = name;
      linux_interface_index = index;
      network_address = address;
      broadcast_address = broadcast;
      subnet_mask = mask_with netmask;
      mac_address = mac;
      mtu = mtu;
    }
    ∷ interfaces_of rest
interfaces_of (other name index family ∷ rest) = interfaces_of rest

-- The interfaces with an IPv4 address, in the order of the system's list, each with the addresses, the
-- mask and the numbers that the system tells of it, on a host of either byte order.
pub get_all_interfaces-told :
    (native : Endian) (system : System) (list : List Told)
    → All (IsAnswered system) list
    → get_all_interfaces native system (map entry_of list) ≡ ok (interfaces_of list)
unfolding get_all_interfaces visit make_interface HardwareAddress.from_big_endian_bytes read_bytes
    IpAddress.to_string
get_all_interfaces-told native system [] h = refl
get_all_interfaces-told native system (other name index family ∷ list) ((i, f), h) =
    rw (i, f, get_all_interfaces-told native system list h) refl
get_all_interfaces-told native system (told name index address broadcast netmask mac mtu ∷ list)
      ((v, b, n, i, w, m, r), h) =
    rw
      (
        i,
        w,
        m,
        r,
        of_string-to_string broadcast b,
        address_of-data_of native address v,
        mask_of-data_of native netmask n,
        get_all_interfaces-told native system list h,
      )
      refl
