-- ===== src/CommandLine/Elements.antt =====
-- cli/src/Command.cpp and Command.hpp: the elements of a command, and the test of a word against one.
pub mod Equality
use klevret.Prelude.{ℕ, zero, suc, ltb, leb, ◌==◌, ◌&&◌, not, if◌then◌else◌, Bool, true, false}
use klevret.Prelude.{List, [], ◌∷◌, text, eq_text, Option, Result, ok, throw, ◌>>=◌, caught}
use klevret.Prelude.{digit_expected}
use klevret.WrapperForParsing.{
  WrapperForParsing, wrap, get_next, eot, is_digit, is_alpha, read_while,
}
use klevret.IpAddress.{Ipv4Address}
use klevret.CommandLine.Addresses.{digits_loop}

pub data CommandElementType : Type 0 where
  none : CommandElementType
  fixed_word : CommandElementType
  string : CommandElementType
  name : CommandElementType
  ip_v4_address : CommandElementType
  ip_v4_subnet_mask : CommandElementType
  ip_v6_address : CommandElementType
  ip_v6_subnet_mask : CommandElementType

-- The constructors of the other classes ignore the text, so that their bytes are zeros.
pub data CommandElementRealValue : Type 0 where
  of_word : List ℕ → CommandElementRealValue
  of_ip_v4_address : Ipv4Address → CommandElementRealValue
  of_ip_v6_address : CommandElementRealValue
  of_ip_v4_subnet_mask : CommandElementRealValue
  of_ip_v6_subnet_mask : CommandElementRealValue

-- The functions that a `command_handler` holds.
pub data CommandHandler : Type 0 where
  cmd_version : CommandHandler
  blank : CommandHandler
  cmd_ip_address_ipv4 : CommandHandler
  cmd_dhcp_pool_create : CommandHandler
  cmd_dhcp_pool_list : CommandHandler

-- `nullptr` is none.
pub record CommandElement : Type 0 where
  pub element_type : CommandElementType
  pub fixed_value : List ℕ
  pub handler : Option CommandHandler

-- The values of the enumeration.
abbrev pub enumerator : CommandElementType → ℕ
enumerator none = 0
enumerator fixed_word = 1
enumerator string = 2
enumerator name = 3
enumerator ip_v4_address = 4
enumerator ip_v4_subnet_mask = 5
enumerator ip_v6_address = 6
enumerator ip_v6_subnet_mask = 7

-- `operator==`
unfoldable pub eq_element : CommandElement → CommandElement → Bool
eq_element a b =
    enumerator a.element_type == enumerator b.element_type && eq_text a.fixed_value b.fixed_value

-- The constructors `CommandElement()` and `CommandElement(type, fixed_value)`.
abbrev pub element : CommandElementType → List ℕ → CommandElement
element t value = record { element_type = t; fixed_value = value; handler = Option.none }

abbrev pub no_element : CommandElement
no_element = element none []

unfoldable pub parse_string : List ℕ → Bool
parse_string str =
    let w = wrap str in
    if not (w.ch == b'"')
    then false
    else (let w_1 = get_next w in (read_while is_alpha w_1.ch w_1.rest).1.ch == b'"')

abbrev pub parse_name : List ℕ → Bool
parse_name str = true

unfoldable pub parse_number : WrapperForParsing → Result (ℕ × WrapperForParsing)
parse_number w = if not (is_digit w.ch) then throw digit_expected else digits_loop 0 w.ch w.rest

-- A round of `parse_ipv4_address` after its call of `parse_number`, with `left` for `3 - i`, and what
-- follows the round.
abbrev pub after_number :
    ℕ → (WrapperForParsing → Result Bool) → Option (ℕ × WrapperForParsing) → Result Bool
after_number left next Option.none = ok false
after_number left next (Option.some (octet, w)) =
    if ltb 255 octet
    then ok false
    else if left == 0
    then next w
    else if not (w.ch == b'.')
    then ok false
    else next (get_next w)

-- The loop of `parse_ipv4_address`, and the test after it.
unfoldable pub check_octets : ℕ → WrapperForParsing → Result Bool
check_octets zero w = ok (w.ch == eot)
check_octets (suc left) w = do
  number ← caught (parse_number w)
  after_number left (check_octets left) number

unfoldable pub parse_ipv4_address : List ℕ → Result Bool
parse_ipv4_address str = check_octets 4 (wrap str)

unfoldable pub parse_ipv4_subnet_mask : List ℕ → Result Bool
parse_ipv4_subnet_mask str = do (mask, w) ← parse_number (wrap str); ok (leb mask 32)

abbrev pub parse_ipv6_address : List ℕ → Bool
parse_ipv6_address str = true

abbrev pub parse_ipv6_subnet_mask : List ℕ → Bool
parse_ipv6_subnet_mask str = true

unfoldable pub check_command_element : List ℕ → CommandElement → Result Bool
check_command_element str e = elim e.element_type [
  | none ↦ ok false
  | fixed_word ↦ ok (eq_text e.fixed_value str)
  | string ↦ ok (parse_string str)
  | name ↦ ok (parse_name str)
  | ip_v4_address ↦ parse_ipv4_address str
  | ip_v4_subnet_mask ↦ parse_ipv4_subnet_mask str
  | ip_v6_address ↦ ok (parse_ipv6_address str)
  | ip_v6_subnet_mask ↦ ok (parse_ipv6_subnet_mask str)
]

unfoldable pub to_string : CommandElement → List ℕ
to_string e = elim e.element_type [
  | none ↦ text "<UNKNOWN>"
  | fixed_word ↦ e.fixed_value
  | string ↦ text "<string>"
  | name ↦ text "<name>"
  | ip_v4_address ↦ text "<IPv4 address>"
  | ip_v4_subnet_mask ↦ text "<subnet mask (IPv4)>"
  | ip_v6_address ↦ text "<IPv6 address>"
  | ip_v6_subnet_mask ↦ text "<subnet mask (IPv6)>"
]
