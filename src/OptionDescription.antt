-- ===== src/OptionDescription.antt =====
-- dhcp/src/DhcpOption.hpp and DhcpOption.cpp: what an option's payload may hold.
-- Lengths are `int64_t`, since a variable length is -1. A code is a byte of a message or a literal.
pub mod Table
use klevret.Prelude.{
  ℕ, ◌+◌, ◌*◌, ◌^◌, ◌==◌, not, ◌&&◌, ◌||◌, if◌then◌else◌, Bool, true, false, List,
}
use klevret.Prelude.{[], ◌∷◌, ℤ, pos, negsuc, leb_ℤ, wrap_ℤ, Result, ok, throw_if}
use klevret.Prelude.{wrong_payload_type, ◌>>=◌, ◌>>◌}

pub data IntConstraintType : Type 0 where
  none range from_min uint_enum : IntConstraintType

pub record IntConstraint : Type 0 where
  pub type : IntConstraintType
  pub min : ℤ
  pub max : ℤ
  pub allowed_values : List ℕ

abbrev pub no_constraint : IntConstraint
no_constraint = record {
  type = IntConstraintType.none;
  min = pos 0;
  max = pos 0;
  allowed_values = [];
}

pub data PayloadType : Type 0 where
  none : PayloadType
  vendor_specific_field : PayloadType
  byte_array : PayloadType
  string : PayloadType
  ip_address : PayloadType
  subnet_mask : PayloadType
  ip_address_with_subnet_mask : PayloadType
  two_ip_addresses : PayloadType
  uint_8 : PayloadType
  uint_16 : PayloadType
  uint_32 : PayloadType
  int_32 : PayloadType
  flag : PayloadType
  uint_enum : PayloadType

pub record PayloadDescription : Type 0 where
  pub type : PayloadType
  pub is_list : Bool
  pub min_len_in_elements : ℤ
  pub int_constraint : IntConstraint

-- `VARIABLE_DHCP_OPTION_LENGTH`
abbrev pub variable_length : ℤ
variable_length = negsuc 0

unfoldable pub get_one_element_payload_length_in_bytes : PayloadType → ℤ
get_one_element_payload_length_in_bytes PayloadType.byte_array = pos 1
get_one_element_payload_length_in_bytes PayloadType.flag = pos 1
get_one_element_payload_length_in_bytes PayloadType.int_32 = pos 4
get_one_element_payload_length_in_bytes PayloadType.ip_address = pos 4
get_one_element_payload_length_in_bytes PayloadType.ip_address_with_subnet_mask = pos 8
get_one_element_payload_length_in_bytes PayloadType.two_ip_addresses = pos 8
get_one_element_payload_length_in_bytes PayloadType.none = pos 0
get_one_element_payload_length_in_bytes PayloadType.string = pos 1
get_one_element_payload_length_in_bytes PayloadType.subnet_mask = pos 4
get_one_element_payload_length_in_bytes PayloadType.uint_16 = pos 2
get_one_element_payload_length_in_bytes PayloadType.uint_32 = pos 4
get_one_element_payload_length_in_bytes PayloadType.uint_8 = pos 1
get_one_element_payload_length_in_bytes PayloadType.uint_enum = pos 1
get_one_element_payload_length_in_bytes PayloadType.vendor_specific_field = variable_length

-- The loop over `allowed_values`.
unfoldable pub is_allowed : List ℕ → ℕ → Bool
is_allowed [] value = false
is_allowed (allowed ∷ more) value = if allowed == value then true else is_allowed more value

-- The `switch` of `is_correct_uint`; the value and the bounds are compared as `int64_t`.
unfoldable pub satisfies_uint : IntConstraint → IntConstraintType → ℕ → Bool
unfolding is_allowed
satisfies_uint c IntConstraintType.none value = true
satisfies_uint c IntConstraintType.from_min value = leb_ℤ c.min (pos value)
satisfies_uint c IntConstraintType.range value = leb_ℤ c.min (pos value) && leb_ℤ (pos value) c.max
satisfies_uint c IntConstraintType.uint_enum value = is_allowed c.allowed_values value

abbrev pub holds_uint : PayloadType → Bool
holds_uint PayloadType.uint_32 = true
holds_uint PayloadType.uint_16 = true
holds_uint PayloadType.uint_8 = true
holds_uint PayloadType.uint_enum = true
holds_uint _ = false

unfoldable pub is_correct_uint : PayloadDescription → ℕ → Result Bool
is_correct_uint d value = do
  throw_if (not (holds_uint d.type)) wrong_payload_type
  ok (satisfies_uint d.int_constraint d.int_constraint.type value)

-- The `switch` of `is_correct_int`; the enumerated values are compared with `(unsigned int)value`.
unfoldable pub satisfies_int : IntConstraint → IntConstraintType → ℤ → Bool
unfolding is_allowed
satisfies_int c IntConstraintType.none value = true
satisfies_int c IntConstraintType.from_min value = leb_ℤ c.min value
satisfies_int c IntConstraintType.range value = leb_ℤ c.min value && leb_ℤ value c.max
satisfies_int c IntConstraintType.uint_enum value =
    is_allowed c.allowed_values (wrap_ℤ (2 ^ 32) value)

abbrev pub holds_int : PayloadType → Bool
holds_int PayloadType.int_32 = true
holds_int _ = false

unfoldable pub is_correct_int : PayloadDescription → ℤ → Result Bool
is_correct_int d value = do
  throw_if (not (holds_int d.type)) wrong_payload_type
  ok (satisfies_int d.int_constraint d.int_constraint.type value)

pub record OptionDescription : Type 0 where
  pub code : ℕ
  pub payload_length : ℤ
  pub payload_description : PayloadDescription
