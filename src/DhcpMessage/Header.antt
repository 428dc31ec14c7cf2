-- ===== src/DhcpMessage/Header.antt =====
-- dhcp/src/DhcpMessage.cpp: the header that is written is read back.
use klevret.Prelude.{◌+◌, ◌*◌, ◌/◌, ◌^◌, ◌<◌, ◌≡◌, refl, arith, [], some, replicate}
use klevret.Prelude.{ok, ◌>>=◌}
use klevret.Endians.{Endian}
use klevret.IpAddress
use klevret.IpAddress.{read_bytes}
use klevret.HardwareAddress.{MacAddress, ethernet_10mb, make_ptr_from_big_endian_bytes}
use klevret.DhcpOption.{read_range}
use klevret.DhcpMessage.{DhcpMessage, byte, parse_header, of_data, write_header, to_network_data}

-- The fields of a message fit their types, and the hardware is the one that the code supports.
pub record IsSendable (m : DhcpMessage) (mac : MacAddress) : Type 0 where
  pub op_byte : m.op < 256
  pub ethernet : m.htype ≡ ethernet_10mb
  pub xid_word : m.xid < 2 ^ 32
  pub secs_half : m.secs < 2 ^ 16
  pub flags_half : m.flags < 2 ^ 16
  pub has_chaddr : m.chaddr ≡ some mac

abbrev pub without_names : DhcpMessage → DhcpMessage
without_names m = record m { sname = replicate 64 0; file = replicate 128 0 }

-- A message with no options is read back as it was, but for `sname` and `file`, which are written
-- as zeros.
pub of_data-to_network_data :
    (native : Endian) (m : DhcpMessage) (mac : MacAddress)
    → IsSendable m mac
    → m.options ≡ []
    → (to_network_data native m >>= of_data native) ≡ ok (without_names m)
unfolding to_network_data of_data write_header parse_header read_range read_bytes
    make_ptr_from_big_endian_bytes IpAddress.from_big_endian_bytes
of_data-to_network_data native m mac s none =
    let op : byte m.op ≡ m.op = omega (arith, s.op_byte) in
    let htype : byte m.htype ≡ ethernet_10mb = omega (arith, s.ethernet) in
    let xid : byte (m.xid / 2 ^ 24) * 2 ^ 24
          + byte (m.xid / 2 ^ 16) * 2 ^ 16
          + byte (m.xid / 2 ^ 8) * 2 ^ 8
          + byte m.xid
        ≡ m.xid =
      omega (arith, s.xid_word) in
    let secs : byte (m.secs / 2 ^ 8) * 2 ^ 8 + byte m.secs ≡ m.secs = omega (arith, s.secs_half) in
    let flags : byte (m.flags / 2 ^ 8) * 2 ^ 8 + byte m.flags ≡ m.flags =
      omega (arith, s.flags_half) in
    rw (s.has_chaddr, none, to_network_data, of_data)
      (rw (op, htype, xid, secs, flags) (rw s.ethernet refl))
