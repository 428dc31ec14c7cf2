-- ===== src/NetworkInterface.antt =====
-- dhcp/src/NetworkInterface.cpp: the list of the interfaces of the host. The answers of the system are
-- parameters: the entries of `getifaddrs`, and what `ioctl` says of a name.
pub mod Entries
use klevret.Prelude.{ℕ, ◌==◌, if◌then◌else◌, List, [], ◌∷◌, ◌++◌, take, Option, some, none}
use klevret.Prelude.{Result, ok, throw, undefined, ◌>>=◌, deref, system_call_failed}
use klevret.Endians.{Endian, network_to_host_endian, bit_cast_int}
use klevret.IpAddress
use klevret.IpAddress.{Ipv4Address, decimal}
use klevret.IpAddress.Mask
use klevret.IpAddress.Mask.{Ipv4SubnetMask}
use klevret.HardwareAddress
use klevret.HardwareAddress.{MacAddress}
use klevret.DhcpServer.{NetworkInterface, ipv4}

-- `sockaddr`: the family, and the bytes of `sin_addr` as they stand in memory.
pub record SockAddr : Type 0 where
  pub sa_family : ℕ
  pub sin_addr : List ℕ

-- An entry of the list of `getifaddrs`; a null pointer is none.
pub record IfAddrs : Type 0 where
  pub ifa_name : List ℕ
  pub ifa_addr : Option SockAddr
  pub ifa_netmask : Option SockAddr

-- The answers of `ioctl` to SIOCGIFINDEX, SIOCGIFHWADDR, SIOCGIFMTU and SIOCGIFBRDADDR on a name; none
-- where the call fails, or the socket for it.
pub record System : Type 0 where
  pub ifindex : List ℕ → Option ℕ
  pub hwaddr : List ℕ → Option (List ℕ)
  pub mtu_of : List ℕ → Option ℕ
  pub broadaddr : List ℕ → Option (List ℕ)

-- The members of NetworkInterface whose addresses are IPv4; `type` is IPv4 for all of them.
pub record HostInterface : Type 0 where
  pub name : List ℕ
  pub linux_interface_index : ℕ
  pub network_address : Ipv4Address
  pub broadcast_address : Ipv4Address
  pub subnet_mask : Ipv4SubnetMask
  pub mac_address : MacAddress
  pub mtu : ℕ

-- What the server reads of an interface.
abbrev pub for_server : HostInterface → NetworkInterface
for_server i = record {
  linux_interface_index = i.linux_interface_index;
  broadcast_address = ipv4 i.broadcast_address;
}

abbrev pub answered {ℓ} : {A : Type ℓ} → Option A → Result A
answered none = throw system_call_failed
answered (some a) = ok a

-- `IPv4Address(network_to_host_endian<uint32_t>(s_addr))`, on the bytes of `s_addr`, and the same of a
-- mask.
abbrev pub address_of : Endian → List ℕ → Ipv4Address
address_of native bytes =
    IpAddress.of_uint32_t native (network_to_host_endian native 4 (bit_cast_int native bytes))

abbrev pub mask_of : Endian → List ℕ → Ipv4SubnetMask
mask_of native bytes =
    Mask.of_uint32_t native (network_to_host_endian native 4 (bit_cast_int native bytes))

-- The text of the bytes 2 to 5 of `sa_data`.
abbrev pub broadcast_text : List ℕ → Result (List ℕ)
broadcast_text (_ ∷ _ ∷ a ∷ b ∷ c ∷ d ∷ _) =
    ok (decimal a ++ (b'.' ∷ (decimal b ++ (b'.' ∷ (decimal c ++ (b'.' ∷ decimal d))))))
broadcast_text _ = undefined

abbrev pub af_inet : ℕ
af_inet = 2

-- What is pushed for an entry with an IPv4 address.
unfoldable pub make_interface : Endian → System → IfAddrs → ℕ → SockAddr → Result HostInterface
make_interface native system entry index addr = do
  netmask ← deref entry.ifa_netmask
  hw ← answered (system.hwaddr entry.ifa_name)
  mac_address ← HardwareAddress.from_big_endian_bytes 6 (take 6 hw)
  mtu ← answered (system.mtu_of entry.ifa_name)
  broadaddr ← answered (system.broadaddr entry.ifa_name)
  ip_str ← broadcast_text broadaddr
  broadcast_address ← IpAddress.of_string ip_str
  ok (record {
    name = entry.ifa_name;
    linux_interface_index = index;
    network_address = address_of native addr.sin_addr;
    broadcast_address = broadcast_address;
    subnet_mask = mask_of native netmask.sin_addr;
    mac_address = mac_address;
    mtu = mtu;
  })

-- A round of the loop: the test for AF_INET6 reads through `ifa_addr`, which it does not test.
unfoldable pub visit : Endian → System → IfAddrs → Result (List HostInterface)
visit native system entry = do
  index ← answered (system.ifindex entry.ifa_name)
  elim entry.ifa_addr [
    | none ↦ undefined
    | some addr ↦
        if addr.sa_family == af_inet
        then (do i ← make_interface native system entry index addr; ok (i ∷ []))
        else ok []
  ]

-- The loop, from an entry on.
unfoldable pub get_all_interfaces : Endian → System → List IfAddrs → Result (List HostInterface)
get_all_interfaces native system [] = ok []
get_all_interfaces native system (entry ∷ entries) = do
  visited ← visit native system entry
  others ← get_all_interfaces native system entries
  ok (visited ++ others)
