-- ===== src/DhcpMessage.antt =====
-- dhcp/src/DhcpMessage.cpp and DhcpMessage.hpp: a DHCP message read from a datagram, and written.
-- `op` and `htype` are their bytes, since the code casts any byte to the enumerations. An iterator
-- is the vector from it on.
pub mod Ending
pub mod Header
use klevret.Prelude.{
  ℕ, zero, suc, ◌+◌, ◌*◌, ◌/◌, ◌%◌, ◌^◌, ◌==◌, ltb, not, ◌&&◌, ◌||◌, if◌then◌else◌,
}
use klevret.Prelude.{
  Bool, true, false, List, [], ◌∷◌, ◌++◌, length, take, drop, replicate, get_elem?,
}
use klevret.Prelude.{Option, some, none, pos, Result, ok, undefined, running, throw_if, at, deref}
use klevret.Prelude.{◌>>=◌, ◌>>◌, message_too_short, unsupported_hardware, bad_magic_cookie}
use klevret.Endians.{Endian}
use klevret.IpAddress
use klevret.IpAddress.{Ipv4Address, of_uint32_t}
use klevret.HardwareAddress.{MacAddress, make_ptr_from_big_endian_bytes, to_chaddr, ethernet_10mb}
use klevret.DhcpOption.{DhcpOption, make_option, read_range}
use klevret.DhcpOption.Encode

pub record DhcpMessage : Type 0 where
  pub op : ℕ
  pub htype : ℕ
  pub hlen : ℕ
  pub hops : ℕ
  pub xid : ℕ
  pub secs : ℕ
  pub flags : ℕ
  pub ciaddr : Ipv4Address
  pub yiaddr : Ipv4Address
  pub siaddr : Ipv4Address
  pub giaddr : Ipv4Address
  pub chaddr : Option MacAddress
  pub sname : List ℕ
  pub file : List ℕ
  pub options : List DhcpOption

abbrev pub dhcp_message_min_length : ℕ
dhcp_message_min_length = 236

-- `DhcpMessage()`; `get_hardware_address_length` of an Ethernet address is 6.
abbrev pub default_message : Endian → DhcpMessage
default_message native = record {
  op = 1;
  htype = ethernet_10mb;
  hlen = 6;
  hops = 0;
  xid = 0;
  secs = 0;
  flags = 0;
  ciaddr = of_uint32_t native 0;
  yiaddr = of_uint32_t native 0;
  siaddr = of_uint32_t native 0;
  giaddr = of_uint32_t native 0;
  chaddr = none;
  sname = [];
  file = [];
  options = [];
}

-- The header. `|` joins bytes shifted to places of their own, so it is a sum.
unfoldable pub parse_header : List ℕ → Result DhcpMessage
parse_header datagram = do
  op ← at (get_elem? datagram 0)
  htype ← at (get_elem? datagram 1)
  hlen ← at (get_elem? datagram 2)
  hops ← at (get_elem? datagram 3)
  x0 ← at (get_elem? datagram 4)
  x1 ← at (get_elem? datagram 5)
  x2 ← at (get_elem? datagram 6)
  x3 ← at (get_elem? datagram 7)
  s0 ← at (get_elem? datagram 8)
  s1 ← at (get_elem? datagram 9)
  f0 ← at (get_elem? datagram 10)
  f1 ← at (get_elem? datagram 11)
  ciaddr ← IpAddress.from_big_endian_bytes 4 (drop 12 datagram)
  yiaddr ← IpAddress.from_big_endian_bytes 4 (drop 16 datagram)
  siaddr ← IpAddress.from_big_endian_bytes 4 (drop 20 datagram)
  giaddr ← IpAddress.from_big_endian_bytes 4 (drop 24 datagram)
  throw_if (not (htype == ethernet_10mb)) unsupported_hardware
  chaddr ← make_ptr_from_big_endian_bytes 6 (drop 28 datagram)
  sname ← read_range 64 (drop 44 datagram)
  file ← read_range 128 (drop 108 datagram)
  ok (record {
    op = op;
    htype = htype;
    hlen = hlen;
    hops = hops;
    xid = x0 * 2 ^ 24 + x1 * 2 ^ 16 + x2 * 2 ^ 8 + x3;
    secs = s0 * 2 ^ 8 + s1;
    flags = f0 * 2 ^ 8 + f1;
    ciaddr = ciaddr;
    yiaddr = yiaddr;
    siaddr = siaddr;
    giaddr = giaddr;
    chaddr = some chaddr;
    sname = sname;
    file = file;
    options = [];
  })

-- `iter += n`, which is undefined behind the end.
abbrev pub advance : ℕ → List ℕ → Result (List ℕ)
advance n rest = if ltb (length rest) n then undefined else ok (drop n rest)

-- The length, the option, and `iter` behind it.
unfoldable pub next_option : Endian → ℕ → List ℕ → Result (DhcpOption × List ℕ)
next_option native option_code [] = undefined
next_option native option_code (payload_length ∷ rest) = do
  new_option ← make_option native option_code (pos payload_length) payload_length rest
  next ← advance payload_length rest
  ok (new_option, next)

-- `while (iter != data.end())`. Every round takes a byte at least.
unfoldable pub parse_options : Endian → ℕ → List ℕ → List DhcpOption → Result (List DhcpOption)
parse_options native zero rest options = running
parse_options native (suc fuel) [] options = ok options
parse_options native (suc fuel) (option_code ∷ rest) options = elim (option_code == 0) [
  | true ↦ parse_options native fuel rest options
  | false ↦ elim (option_code == 255) [
    | true ↦ ok options
    | false ↦ next_option native option_code rest >>= λ next.
        parse_options native fuel next.1 (options ++ (next.0 ∷ []))
  ]
]

-- `*iter != 99 || …` for the magic cookie; the iterators are inside the vector.
unfoldable pub has_magic_cookie : List ℕ → Bool
has_magic_cookie (a ∷ b ∷ c ∷ d ∷ rest) = a == 99 && (b == 130 && (c == 83 && d == 99))
has_magic_cookie _ = false

-- `DhcpMessage(std::vector<uint8_t> data)`
unfoldable pub of_data : Endian → List ℕ → Result DhcpMessage
of_data native datagram = do
  throw_if (ltb (length datagram) dhcp_message_min_length) message_too_short
  message ← parse_header datagram
  if ltb (length datagram) (dhcp_message_min_length + 4) then ok message else (do
    throw_if (not (has_magic_cookie (drop 236 datagram))) bad_magic_cookie
    options ← parse_options native (suc (length (drop 240 datagram))) (drop 240 datagram) []
    ok (record message { options = options }))

-- `push_back` on a vector of bytes keeps the lowest 8 bits.
abbrev pub byte : ℕ → ℕ
byte v = v % 256

unfoldable pub write_header : DhcpMessage → MacAddress → List ℕ
write_header m mac =
    byte m.op
    ∷ byte m.htype
    ∷ m.hlen
    ∷ m.hops
    ∷ byte (m.xid / 2 ^ 24)
    ∷ byte (m.xid / 2 ^ 16)
    ∷ byte (m.xid / 2 ^ 8)
    ∷ byte m.xid
    ∷ byte (m.secs / 2 ^ 8)
    ∷ byte m.secs
    ∷ byte (m.flags / 2 ^ 8)
    ∷ byte m.flags
    ∷ (IpAddress.to_network_data m.ciaddr
        ++ (IpAddress.to_network_data m.yiaddr
            ++ (IpAddress.to_network_data m.siaddr
                ++ (IpAddress.to_network_data m.giaddr
                    ++ (to_chaddr mac ++ (replicate 64 0 ++ replicate 128 0))))))

-- The loop over `options`.
unfoldable pub write_options : Endian → List DhcpOption → Result (List ℕ)
write_options native [] = ok []
write_options native (option ∷ options) = do
  opt_data ← Encode.to_network_data native option
  more ← write_options native options
  ok (opt_data ++ more)

-- `DhcpMessage::to_network_data`; a call through a null `chaddr` is undefined.
unfoldable pub to_network_data : Endian → DhcpMessage → Result (List ℕ)
to_network_data native m = do
  mac ← deref m.chaddr
  let header = write_header m mac
  if length m.options == 0 then ok header else (do
    options_data ← write_options native m.options
    ok (header ++ (99 ∷ 130 ∷ 83 ∷ 99 ∷ (options_data ++ (255 ∷ [])))))
