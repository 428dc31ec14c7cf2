-- ===== src/Tests/Commands.antt =====
-- cli/src on the commands of the table and on a line of keys.
use klevret.Prelude.{ℕ, ◌≡◌, refl, true, List, [], ◌∷◌, Any, All, map, text, Option, some, ok}
use klevret.Prelude.{arith, ◌≢◌}
use klevret.IpAddress
use klevret.IpAddress.{Ipv4Address, IsValid}
use klevret.CommandLine.Addresses.{of_string, to_string, read_octets, parse_octet, digits_loop}
use klevret.CommandLine.Octets.{of_string-parse_ipv4_address}
use klevret.CommandLine.Elements.{CommandElementType, CommandElementRealValue}
use klevret.CommandLine.Elements.{
  parse_ipv4_address, check_octets, parse_number, cmd_ip_address_ipv4, eq_element,
}
use klevret.CommandLine.Elements.{check_command_element, of_word, of_ip_v4_address}
use klevret.CommandLine.Patterns.{
  KlevretComponent, make_command, command_table, make_commands, all_commands,
}
use klevret.CommandLine.Patterns.Rounds.{Item, word, variable, element_of}
use klevret.CommandLine.Patterns.Printing.{make_command-print_pattern}
use klevret.CommandLine.Tree.{
  CommandTree, childs_of, create_command_tree, add_commands, add_elements, at_child,
}
use klevret.CommandLine.Tree.Index.{IsPatternElement, handlers_at, registered}
use klevret.CommandLine.Analysis.{analyze_parts, first_fit, only_handler}
use klevret.CommandLine.Analysis.Soundness.{Serves}
use klevret.CommandLine.Analysis.Table.{handlers_at-make_commands, analyze_parts-make_commands}
use klevret.CommandLine.Handlers.{run_handler}
use klevret.CommandLine.Handlers.Safety.{
  commands, all_commands_eq, fixed, ip_v4, run_handler-analyze_parts,
}
use klevret.CommandLine.Console.{
  Console, Key, Round, start, on_keys, on_key, on_backspace, on_character,
}
use klevret.CommandLine.Console.Cursor.{IsWithin, on_keys-IsWithin}
use klevret.CommandLine.Console.Backspace.{console_at}
use klevret.CommandLine.Console.Backspace.{on_backspace-on_character, on_backspace_elsewhere}
use klevret.Tests.{ip}
use klevret.Tests.Trees.{trees}

-- `ip address <IPv4Address>`
abbrev ip_items : List Item
ip_items = word (text "ip") ∷ word (text "address") ∷ variable CommandElementType.ip_v4_address ∷ []

word≢nil : (c : ℕ) (s : List ℕ) → (c ∷ s) ≢ []
word≢nil c s h = cc

make_command-print_pattern_example :
    make_command KlevretComponent.dhcp (text "ip address <IPv4Address>") cmd_ip_address_ipv4
    ≡ ok (record {
      klevret_component = KlevretComponent.dhcp;
      elements = map element_of ip_items;
      handler = cmd_ip_address_ipv4;
    })
make_command-print_pattern_example =
    make_command-print_pattern KlevretComponent.dhcp ip_items cmd_ip_address_ipv4 (
      (word≢nil _ _, (refl, (refl, tt))),
      (
        (word≢nil _ _, (refl, (refl, (refl, (refl, (refl, (refl, (refl, tt)))))))),
        (word≢nil _ _, tt),
      ),
    )

pub accepted_1 : parse_ipv4_address (text "10.0.0.1") ≡ ok true
unfolding parse_ipv4_address check_octets parse_number digits_loop
accepted_1 = refl

of_string-parse_ipv4_address_example :
    (a : Ipv4Address) × (of_string (text "10.0.0.1") ≡ ok a)
    × IsValid a
    × (IpAddress.of_string (to_string a) ≡ ok a)
of_string-parse_ipv4_address_example = of_string-parse_ipv4_address (text "10.0.0.1") accepted_1

path_IsPatternElement :
    All IsPatternElement
      (fixed (text "dhcp") ∷ fixed (text "pool") ∷ fixed (text "create") ∷ ip_v4 ∷ ip_v4 ∷ [])
unfolding eq_element
path_IsPatternElement = (
  record { typed = refl; unhandled = refl },
  (
    record { typed = refl; unhandled = refl },
    (
      record { typed = refl; unhandled = refl },
      (record { typed = refl; unhandled = refl }, (record { typed = refl; unhandled = refl }, tt)),
    ),
  ),
)

made : make_commands command_table ≡ ok commands
unfolding all_commands
made = all_commands_eq

handlers_at-make_commands_example :
    handlers_at
      (fixed (text "dhcp") ∷ fixed (text "pool") ∷ fixed (text "create") ∷ ip_v4 ∷ ip_v4 ∷ [])
      (create_command_tree commands)
    ≡ registered
        (fixed (text "dhcp") ∷ fixed (text "pool") ∷ fixed (text "create") ∷ ip_v4 ∷ ip_v4 ∷ [])
        commands
handlers_at-make_commands_example =
    handlers_at-make_commands command_table commands
      (fixed (text "dhcp") ∷ fixed (text "pool") ∷ fixed (text "create") ∷ ip_v4 ∷ ip_v4 ∷ []) made
      path_IsPatternElement

-- The line `ip address 10.0.0.1`.
abbrev ip_parts : List (List ℕ)
ip_parts = text "ip" ∷ text "address" ∷ text "10.0.0.1" ∷ []

abbrev ip_stack : List CommandElementRealValue
ip_stack = of_ip_v4_address (ip 1) ∷ of_word (text "address") ∷ of_word (text "ip") ∷ []

analyzed :
    (t : CommandTree) × (analyze_parts ip_parts (create_command_tree commands) []
      ≡ ok (t, ip_stack))
    × (only_handler (childs_of t) ≡ some cmd_ip_address_ipv4)
unfolding analyze_parts first_fit check_command_element add_commands add_elements at_child
    eq_element parse_ipv4_address check_octets parse_number digits_loop of_string read_octets
    parse_octet
analyzed = (_, refl, refl)

analyze_parts-make_commands_example : Any (Serves cmd_ip_address_ipv4 ip_stack) commands
analyze_parts-make_commands_example =
    analyze_parts-make_commands command_table commands ip_parts analyzed.0 ip_stack
      cmd_ip_address_ipv4 made analyzed.1 analyzed.2

run_handler-analyze_parts_example :
    (request : Option trees.Ptree) × (run_handler trees cmd_ip_address_ipv4 ip_stack ≡ ok request)
run_handler-analyze_parts_example =
    run_handler-analyze_parts trees ip_parts analyzed.0 ip_stack cmd_ip_address_ipv4 analyzed.1
      analyzed.2

abbrev key : ℕ → Key
key c = record { c = c; ch_1 = 255; ch_2 = 255 }

abbrev no_split : List ℕ → List (List ℕ)
no_split line = line ∷ []

-- The keys a, b, the left arrow, c and BACKSPACE.
abbrev typed_keys : List Key
typed_keys = key b'a' ∷ key b'b' ∷ record { c = 27; ch_1 = 91; ch_2 = 68 } ∷ key b'c' ∷ key 127 ∷ []

typed :
    (s : Console) × (on_keys no_split (create_command_tree commands) typed_keys start ≡ ok s)
    × (s.current_command_input ≡ text "ac")
unfolding on_keys on_key on_backspace
typed = (_, refl, refl)

on_keys-IsWithin_example : IsWithin typed.0
on_keys-IsWithin_example =
    on_keys-IsWithin no_split (create_command_tree commands) typed_keys start typed.0
      (record { within = omega arith; unchanged = refl }) typed.1

on_backspace-on_character_example :
    (round : Round) × (on_backspace (on_character b'c' (console_at (text "ab") 2 0)).console
      ≡ ok round)
    × (round.console ≡ console_at (text "ab") 2 0)
on_backspace-on_character_example = on_backspace-on_character (text "ab") b'c' 0

on_backspace_elsewhere_example :
    (round : Round) × (on_backspace (on_character b'c' (console_at (text "ab") 1 0)).console
      ≡ ok round)
    × (round.console ≡ console_at (text "ac") 1 0)
on_backspace_elsewhere_example = on_backspace_elsewhere (text "a") [] b'b' b'c' 0
