-- ===== src/DhcpOption.antt =====
-- dhcp/src/DhcpOption.cpp, the class DhcpOption: an option read from a message, and written.
-- The payload is the vector from `payload_begin` on and the distance `n` to `payload_end`; a read
-- past the vector is undefined. `native` is the host's byte order.
pub mod Encode
pub mod Elements
pub mod Integers
pub mod Rounds
pub mod Loop
pub mod Returning
pub mod RoundTrip
pub mod Bounds
pub mod Ending
use klevret.Prelude.{ℕ, zero, suc, ◌+◌, ◌-◌, ◌*◌, ◌^◌, ◌==◌, ltb, not, ◌&&◌, if◌then◌else◌, Bool}
use klevret.Prelude.{true, false, List, [], ◌∷◌, ◌++◌, length, drop, ℤ, pos, negsuc, eq_ℤ, leb_ℤ}
use klevret.Prelude.{wrap_ℤ, Result, ok, throw, undefined, running, throw_if, at, ◌>>=◌, ◌>>◌}
use klevret.Prelude.{constraint_violated, too_short, wrong_payload_length, empty_value, not_in_list}
use klevret.Endians.{Endian, to_le, in_memory, network_range_to_host_endian}
use klevret.IpAddress
use klevret.IpAddress.{Ipv4Address}
use klevret.IpAddress.Mask
use klevret.IpAddress.Mask.{Ipv4SubnetMask}
use klevret.OptionDescription.{PayloadType, OptionDescription, variable_length, is_correct_uint}
use klevret.OptionDescription.{is_correct_int, get_one_element_payload_length_in_bytes}
use klevret.OptionDescription.Table.{options_descriptions, find_description}

-- `dhcp_option_field_real_value_t`
pub data RealValue : Type 0 where
  int32 : ℤ → RealValue
  uint32 : ℕ → RealValue
  uint16 : ℕ → RealValue
  uint8 : ℕ → RealValue
  bytes : List ℕ → RealValue
  text : List ℕ → RealValue
  address : Ipv4Address → RealValue
  mask : Ipv4SubnetMask → RealValue
  address_with_mask : Ipv4Address → Ipv4SubnetMask → RealValue
  two_addresses : Ipv4Address → Ipv4Address → RealValue
  boolean : Bool → RealValue

pub record DhcpOption : Type 0 where
  pub real_payload_length : ℤ
  pub description : OptionDescription
  pub real_values : List RealValue

-- `real_values.push_back(value)`
abbrev pub push : DhcpOption → RealValue → DhcpOption
push o v = record o { real_values = o.real_values ++ (v ∷ []) }

-- A copy of the `n` elements that stand at an iterator.
unfoldable pub read_range : ℕ → List ℕ → Result (List ℕ)
read_range zero rest = ok []
read_range (suc n) [] = undefined
read_range (suc n) (b ∷ rest) = do more ← read_range n rest; ok (b ∷ more)

-- An integer type of 32 bits, two's complement.
abbrev pub signed32 : ℕ → ℤ
signed32 w = if ltb w (2 ^ 31) then pos w else negsuc (2 ^ 32 - w - 1)

module _ (o : DhcpOption) where
  unfoldable pub process_vendor_specific_field : ℕ → List ℕ → Result DhcpOption
  process_vendor_specific_field n rest = do value ← read_range n rest; ok (push o (bytes value))

  unfoldable pub process_byte_array : ℕ → List ℕ → Result DhcpOption
  process_byte_array n rest = do
    byte_array ← read_range n rest
    throw_if
        (eq_ℤ o.description.payload_length variable_length
          && ltb (length byte_array)
              (wrap_ℤ (2 ^ 32) o.description.payload_description.min_len_in_elements))
        too_short
    throw_if
        (not (eq_ℤ o.description.payload_length variable_length)
          && not (eq_ℤ o.description.payload_length (pos (length byte_array))))
        wrong_payload_length
    ok (push o (bytes byte_array))

  unfoldable pub process_string : ℕ → List ℕ → Result DhcpOption
  process_string n rest = do value ← read_range n rest; ok (push o (text value))

  unfoldable pub process_ip_address : List ℕ → Result DhcpOption
  process_ip_address rest = do
    value ← IpAddress.from_big_endian_bytes 4 rest
    ok (push o (address value))

  unfoldable pub process_subnet_mask : List ℕ → Result DhcpOption
  process_subnet_mask rest = do
    subnet_mask ← Mask.from_big_endian_bytes 4 rest
    ok (push o (mask subnet_mask))

  unfoldable pub process_ip_address_with_mask : List ℕ → Result DhcpOption
  process_ip_address_with_mask rest = do
    ip_address ← IpAddress.from_big_endian_bytes 4 rest
    subnet_mask ← Mask.from_big_endian_bytes 4 (drop 4 rest)
    ok (push o (address_with_mask ip_address subnet_mask))

  unfoldable pub process_two_ip_addresses : List ℕ → Result DhcpOption
  process_two_ip_addresses rest = do
    ip1 ← IpAddress.from_big_endian_bytes 4 rest
    ip2 ← IpAddress.from_big_endian_bytes 4 (drop 4 rest)
    ok (push o (two_addresses ip1 ip2))

  -- The check and the push that the numeric types share.
  abbrev pub push_uint : ℕ → RealValue → Result DhcpOption
  push_uint value v = do
    correct ← is_correct_uint o.description.payload_description value
    throw_if (not correct) constraint_violated
    ok (push o v)

  unfoldable pub process_uint8 : List ℕ → Result DhcpOption
  process_uint8 [] = undefined
  process_uint8 (value ∷ rest) = push_uint value (uint8 value)

  unfoldable pub process_uint16 : Endian → List ℕ → Result DhcpOption
  process_uint16 native rest = do
    range ← read_range 2 rest
    value ← network_range_to_host_endian native 2 range
    push_uint value (uint16 value)

  unfoldable pub process_uint32 : Endian → List ℕ → Result DhcpOption
  process_uint32 native rest = do
    range ← read_range 4 rest
    value ← network_range_to_host_endian native 4 range
    push_uint value (uint32 value)

  unfoldable pub process_int32 : Endian → List ℕ → Result DhcpOption
  process_int32 native rest = do
    range ← read_range 4 rest
    word ← network_range_to_host_endian native 4 range
    correct ← is_correct_int o.description.payload_description (signed32 word)
    throw_if (not correct) constraint_violated
    ok (push o (int32 (signed32 word)))

  unfoldable pub process_flag : List ℕ → Result DhcpOption
  process_flag [] = undefined
  process_flag (value ∷ rest) = ok (push o (boolean (not (value == 0))))

  unfoldable pub process_uint_enum : List ℕ → Result DhcpOption
  process_uint_enum [] = undefined
  process_uint_enum (value ∷ rest) = push_uint value (uint8 value)

-- One round of the constructor's `switch`; the flag says that the constructor returns. `n` is the
-- distance from `iter` to `payload_end`.
unfoldable pub process_element :
    Endian → PayloadType → DhcpOption → ℕ → List ℕ → Result (Bool × DhcpOption)
process_element native PayloadType.ip_address o n rest = do
  o' ← process_ip_address o rest
  ok (false, o')
process_element native PayloadType.subnet_mask o n rest = do
  o' ← process_subnet_mask o rest
  ok (false, o')
process_element native PayloadType.ip_address_with_subnet_mask o n rest = do
  o' ← process_ip_address_with_mask o rest
  ok (false, o')
process_element native PayloadType.two_ip_addresses o n rest = do
  o' ← process_two_ip_addresses o rest
  ok (false, o')
process_element native PayloadType.uint_8 o n rest = do o' ← process_uint8 o rest; ok (false, o')
process_element native PayloadType.uint_16 o n rest = do
  o' ← process_uint16 o native rest
  ok (false, o')
process_element native PayloadType.uint_32 o n rest = do
  o' ← process_uint32 o native rest
  ok (false, o')
process_element native PayloadType.int_32 o n rest = do
  o' ← process_int32 o native rest
  ok (false, o')
process_element native PayloadType.flag o n rest = do o' ← process_flag o rest; ok (false, o')
process_element native PayloadType.uint_enum o n rest = do
  o' ← process_uint_enum o rest
  ok (false, o')
process_element native PayloadType.vendor_specific_field o n rest = do
  o' ← process_vendor_specific_field o n rest
  ok (true, o')
process_element native PayloadType.byte_array o n rest = do
  o' ← process_byte_array o n rest
  ok (true, o')
process_element native PayloadType.string o n rest = do o' ← process_string o n rest; ok (true, o')
process_element native PayloadType.none o n rest = throw not_in_list

-- `get_one_element_payload_length_in_bytes`, as the step of `iter`. It is used only for the types
-- that do not return, and theirs is not negative.
abbrev pub element_size : PayloadType → ℕ
element_size t = wrap_ℤ (2 ^ 63) (get_one_element_payload_length_in_bytes t)

-- `while (iter != payload_end)`. `iter` and `n` count from `payload_begin`, `rest` is the vector
-- from `iter` on. An iterator behind `payload_end` is not stopped by the test.
unfoldable pub payload_loop :
    Endian → ℕ → ℕ → ℕ → List ℕ → PayloadType → DhcpOption → Result DhcpOption
payload_loop native zero iter n rest t o = running
payload_loop native (suc fuel) iter n rest t o = elim (iter == n) [
  | true ↦ ok o
  | false ↦ process_element native t o (n - iter) rest >>= λ step. elim step.0 [
    | true ↦ ok step.1
    | false ↦
        payload_loop native fuel (iter + element_size t) n (drop (element_size t) rest) t step.1
  ]
]

abbrev is_none : PayloadType → Bool
is_none PayloadType.none = true
is_none _ = false

-- The constructor. Every round that does not return takes a byte of the vector at least, so the
-- vector's length bounds the rounds.
unfoldable pub make_option : Endian → ℕ → ℤ → ℕ → List ℕ → Result DhcpOption
make_option native code real_payload_length n rest = do
  description ← at (find_description code options_descriptions)
  throw_if
      (not (eq_ℤ description.payload_length variable_length)
        && not (eq_ℤ description.payload_length real_payload_length))
      wrong_payload_length
  let t = description.payload_description.type
  throw_if (is_none t) empty_value
  payload_loop native (suc (length rest)) 0 n rest t (record {
    real_payload_length =
        if eq_ℤ description.payload_length variable_length
        then real_payload_length
        else description.payload_length;
    description = description;
    real_values = [];
  })
