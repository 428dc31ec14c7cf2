-- ===== src/CommandLine/Patterns.antt =====
-- cli/src/Command.cpp: the class Command, whose constructor parses a pattern, and the table of commands.
-- The descriptions of a command, which nothing reads, are left out.
pub mod Rounds
pub mod Items
pub mod Printing
pub mod Ending
pub mod Typed
use klevret.Prelude.{ℕ, zero, suc, ◌==◌, not, if◌then◌else◌, Bool, true, false, List, [], ◌∷◌, ◌++◌}
use klevret.Prelude.{
  length, text, eq_text, Option, none, some, Result, ok, throw, running, ◌>>=◌, ◌>>◌,
}
use klevret.Prelude.{throw_if, bracket_expected, empty_variable, unknown_variable, element_expected}
use klevret.Prelude.{end_expected}
use klevret.WrapperForParsing.{
  WrapperForParsing, wrap, get_next, is_end, is_alpha, is_alnum, read_while, skip_whitespaces,
}
use klevret.CommandLine.Elements.{CommandElementType, CommandElement, CommandHandler, element}

pub data KlevretComponent : Type 0 where
  cli : KlevretComponent
  core : KlevretComponent
  dhcp : KlevretComponent

pub record Command : Type 0 where
  pub klevret_component : KlevretComponent
  pub elements : List CommandElement
  pub handler : CommandHandler

-- `elements` is the vector that the call appends to.
unfoldable pub parse_fixed_word :
    List CommandElement → WrapperForParsing → Result (List CommandElement × WrapperForParsing)
parse_fixed_word elements w =
    let (word, w') = read_while is_alpha w.ch w.rest in
    ok (elements ++ (element CommandElementType.fixed_word word ∷ []), w')

abbrev pub str_to_element_type_map : List (List ℕ × CommandElementType)
str_to_element_type_map =
    (text "string", CommandElementType.string)
    ∷ (text "name", CommandElementType.name)
    ∷ (text "IPv4Address", CommandElementType.ip_v4_address)
    ∷ (text "IPv4SubnetMask", CommandElementType.ip_v4_subnet_mask)
    ∷ (text "IPv6Address", CommandElementType.ip_v6_address)
    ∷ (text "IPv6SubnetMask", CommandElementType.ip_v6_subnet_mask)
    ∷ []

abbrev pub find_element_type :
    List ℕ → List (List ℕ × CommandElementType) → Option CommandElementType
find_element_type key [] = none
find_element_type key ((k, t) ∷ entries) =
    if eq_text k key then some t else find_element_type key entries

abbrev pub iter_second : Option CommandElementType → Result CommandElementType
iter_second none = throw unknown_variable
iter_second (some t) = ok t

unfoldable pub parse_variable_element :
    List CommandElement → WrapperForParsing → Result (List CommandElement × WrapperForParsing)
parse_variable_element elements w = do
  throw_if (not (w.ch == b'<')) bracket_expected
  let w_1 = get_next w
  let (variable_element, w_2) = read_while is_alnum w_1.ch w_1.rest
  throw_if (eq_text variable_element []) empty_variable
  t ← iter_second (find_element_type variable_element str_to_element_type_map)
  throw_if (not (w_2.ch == b'>')) bracket_expected
  ok (elements ++ (element t [] ∷ []), get_next w_2)

unfoldable pub parse_pattern_element :
    List CommandElement → WrapperForParsing → Result (List CommandElement × WrapperForParsing)
parse_pattern_element elements w =
    if is_alpha w.ch
    then parse_fixed_word elements w
    else if w.ch == b'<'
    then parse_variable_element elements w
    else throw element_expected

-- `while (!wrap.is_end())`
unfoldable pub parse_pattern :
    ℕ → List CommandElement → WrapperForParsing → Result (List CommandElement × WrapperForParsing)
parse_pattern zero elements w = running
parse_pattern (suc fuel) elements w = if is_end w then ok (elements, w) else (do
  (elements', w') ← parse_pattern_element elements (skip_whitespaces w)
  parse_pattern fuel elements' w')

-- `Command(klevret_component, pattern, descriptions, handler)`: every round takes a character.
unfoldable pub make_command : KlevretComponent → List ℕ → CommandHandler → Result Command
make_command component pattern handler = do
  (elements, w) ← parse_pattern (suc (length pattern)) [] (wrap pattern)
  throw_if (not (is_end w)) end_expected
  ok (record { klevret_component = component; elements = elements; handler = handler })

-- The commands of a table, in order: the first that throws ends the program at its start.
unfoldable pub make_commands :
    List (KlevretComponent × List ℕ × CommandHandler) → Result (List Command)
make_commands [] = ok []
make_commands ((component, pattern, handler) ∷ entries) = do
  command ← make_command component pattern handler
  commands ← make_commands entries
  ok (command ∷ commands)

abbrev pub command_table : List (KlevretComponent × List ℕ × CommandHandler)
command_table =
    (cli, text "version", CommandHandler.cmd_version)
    ∷ (dhcp, text "ip show", CommandHandler.blank)
    ∷ (dhcp, text "ip address show", CommandHandler.blank)
    ∷ (dhcp, text "ip address <IPv4Address>", CommandHandler.cmd_ip_address_ipv4)
    ∷ (
      dhcp,
      text "dhcp pool create <IPv4Address> <IPv4Address>",
      CommandHandler.cmd_dhcp_pool_create,
    )
    ∷ (dhcp, text "dhcp pool list", CommandHandler.cmd_dhcp_pool_list)
    ∷ []

unfoldable pub all_commands : Result (List Command)
all_commands = make_commands command_table
