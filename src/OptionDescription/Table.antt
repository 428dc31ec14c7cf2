-- ===== src/OptionDescription/Table.antt =====
-- The table `options_descriptions` of dhcp/src/DhcpOption.cpp, in the order of the source.
use klevret.Prelude.{ℕ, ◌==◌, if◌then◌else◌, Bool, true, false, List, [], ◌∷◌, ℤ, pos}
use klevret.Prelude.{Option, some}
use klevret.OptionDescription.{IntConstraint, IntConstraintType, no_constraint, PayloadType}
use klevret.OptionDescription.{OptionDescription, variable_length}

abbrev no_payload_option : ℕ → OptionDescription
no_payload_option code = record {
  code = code;
  payload_length = pos 0;
  payload_description = record {
    type = PayloadType.none;
    is_list = false;
    min_len_in_elements = pos 0;
    int_constraint = no_constraint;
  };
}

abbrev option : ℕ → ℤ → PayloadType → Bool → ℕ → IntConstraint → OptionDescription
option code length type is_list min_len int_constraint = record {
  code = code;
  payload_length = length;
  payload_description = record {
    type = type;
    is_list = is_list;
    min_len_in_elements = pos min_len;
    int_constraint = int_constraint;
  };
}

abbrev constraint : IntConstraintType → ℕ → ℕ → List ℕ → IntConstraint
constraint type min max allowed = record {
  type = type;
  min = pos min;
  max = pos max;
  allowed_values = allowed;
}

unfoldable pub options_descriptions : List OptionDescription
options_descriptions =
    no_payload_option 0
    ∷ no_payload_option 255
    ∷ option 1 (pos 4) PayloadType.subnet_mask false 0 no_constraint
    ∷ option 2 (pos 4) PayloadType.int_32 false 0 no_constraint
    ∷ option 3 variable_length PayloadType.ip_address true 1 no_constraint
    ∷ option 4 variable_length PayloadType.ip_address true 1 no_constraint
    ∷ option 5 variable_length PayloadType.ip_address true 1 no_constraint
    ∷ option 6 variable_length PayloadType.ip_address true 1 no_constraint
    ∷ option 7 variable_length PayloadType.ip_address true 1 no_constraint
    ∷ option 8 variable_length PayloadType.ip_address true 1 no_constraint
    ∷ option 9 variable_length PayloadType.ip_address true 1 no_constraint
    ∷ option 10 variable_length PayloadType.ip_address true 1 no_constraint
    ∷ option 11 variable_length PayloadType.ip_address true 1 no_constraint
    ∷ option 12 variable_length PayloadType.string false 1 no_constraint
    ∷ option 13 (pos 2) PayloadType.uint_16 false 0 no_constraint
    ∷ option 14 variable_length PayloadType.string false 1 no_constraint
    ∷ option 15 variable_length PayloadType.string false 1 no_constraint
    ∷ option 16 (pos 4) PayloadType.ip_address false 0 no_constraint
    ∷ option 17 variable_length PayloadType.string false 1 no_constraint
    ∷ option 18 variable_length PayloadType.string false 1 no_constraint
    ∷ option 19 (pos 1) PayloadType.flag false 0 no_constraint
    ∷ option 20 (pos 1) PayloadType.flag false 0 no_constraint
    ∷ option 21 variable_length PayloadType.ip_address_with_subnet_mask true 1 no_constraint
    ∷ option 22 (pos 2) PayloadType.uint_16 false 0 (constraint IntConstraintType.from_min 576 0 [])
    ∷ option 23 (pos 1) PayloadType.uint_8 false 0 (constraint IntConstraintType.range 1 255 [])
    ∷ option 24 (pos 4) PayloadType.uint_32 false 0 no_constraint
    ∷ option 25 variable_length PayloadType.uint_16 true 2 no_constraint
    ∷ option 26 (pos 2) PayloadType.uint_16 false 0 (constraint IntConstraintType.from_min 68 0 [])
    ∷ option 27 (pos 1) PayloadType.flag false 0 no_constraint
    ∷ option 28 (pos 4) PayloadType.ip_address false 0 no_constraint
    ∷ option 29 (pos 1) PayloadType.flag false 0 no_constraint
    ∷ option 30 (pos 1) PayloadType.flag false 0 no_constraint
    ∷ option 31 (pos 1) PayloadType.flag false 0 no_constraint
    ∷ option 32 (pos 4) PayloadType.ip_address false 0 no_constraint
    ∷ option 33 variable_length PayloadType.two_ip_addresses true 1 no_constraint
    ∷ option 34 (pos 1) PayloadType.flag false 0 no_constraint
    ∷ option 35 (pos 4) PayloadType.uint_32 false 0 no_constraint
    ∷ option 36 (pos 1) PayloadType.flag false 0 no_constraint
    ∷ option 37 (pos 1) PayloadType.uint_8 false 0 (constraint IntConstraintType.from_min 1 0 [])
    ∷ option 38 (pos 4) PayloadType.uint_32 false 0 no_constraint
    ∷ option 39 (pos 1) PayloadType.flag false 0 no_constraint
    ∷ option 40 variable_length PayloadType.string false 1 no_constraint
    ∷ option 41 variable_length PayloadType.ip_address true 1 no_constraint
    ∷ option 42 variable_length PayloadType.ip_address true 1 no_constraint
    ∷ option 43 variable_length PayloadType.vendor_specific_field false 1 no_constraint
    ∷ option 44 variable_length PayloadType.ip_address true 1 no_constraint
    ∷ option 45 variable_length PayloadType.ip_address true 1 no_constraint
    ∷ option 46 (pos 1) PayloadType.uint_enum false 0
        (constraint IntConstraintType.uint_enum 0 0 (1 ∷ 2 ∷ 4 ∷ 8 ∷ []))
    ∷ option 47 variable_length PayloadType.string false 1 no_constraint
    ∷ option 48 variable_length PayloadType.ip_address true 1 no_constraint
    ∷ option 49 variable_length PayloadType.ip_address true 1 no_constraint
    ∷ option 64 variable_length PayloadType.string false 1 no_constraint
    ∷ option 65 variable_length PayloadType.ip_address true 1 no_constraint
    ∷ option 68 variable_length PayloadType.ip_address true 0 no_constraint
    ∷ option 69 variable_length PayloadType.ip_address true 1 no_constraint
    ∷ option 70 variable_length PayloadType.ip_address true 1 no_constraint
    ∷ option 71 variable_length PayloadType.ip_address true 1 no_constraint
    ∷ option 72 variable_length PayloadType.ip_address true 1 no_constraint
    ∷ option 73 variable_length PayloadType.ip_address true 1 no_constraint
    ∷ option 74 variable_length PayloadType.ip_address true 1 no_constraint
    ∷ option 75 variable_length PayloadType.ip_address true 1 no_constraint
    ∷ option 76 variable_length PayloadType.ip_address true 1 no_constraint
    ∷ option 50 (pos 4) PayloadType.ip_address false 0 no_constraint
    ∷ option 51 (pos 4) PayloadType.uint_32 false 0 no_constraint
    ∷ option 52 (pos 1) PayloadType.uint_enum false 0
        (constraint IntConstraintType.uint_enum 0 0 (1 ∷ 2 ∷ 3 ∷ []))
    ∷ option 66 variable_length PayloadType.string false 1 no_constraint
    ∷ option 67 variable_length PayloadType.string false 1 no_constraint
    ∷ option 53 (pos 1) PayloadType.uint_enum false 0
        (constraint IntConstraintType.uint_enum 0 0 (1 ∷ 2 ∷ 3 ∷ 4 ∷ 5 ∷ 6 ∷ 7 ∷ 8 ∷ []))
    ∷ option 54 (pos 4) PayloadType.ip_address false 0 no_constraint
    ∷ option 55 variable_length PayloadType.byte_array false 1 no_constraint
    ∷ option 56 variable_length PayloadType.string false 1 no_constraint
    ∷ option 57 (pos 2) PayloadType.uint_16 false 0 (constraint IntConstraintType.from_min 576 0 [])
    ∷ option 58 (pos 4) PayloadType.uint_32 false 0 no_constraint
    ∷ option 59 (pos 4) PayloadType.uint_32 false 0 no_constraint
    ∷ option 60 variable_length PayloadType.string false 1 no_constraint
    ∷ option 61 variable_length PayloadType.byte_array false 2 no_constraint
    ∷ []

-- `options_descriptions.at(code)`: the map's keys are the descriptions' codes.
unfoldable pub find_description : ℕ → List OptionDescription → Option OptionDescription
find_description code [] = Option.none
find_description code (d ∷ ds) = if d.code == code then some d else find_description code ds
