-- ===== src/Tests/Messages.antt =====
-- dhcp/src/DhcpMessage.cpp and dhcp/src/DhcpOption.cpp on concrete bytes.
use klevret.Prelude.{ℕ, ◌≡◌, refl, arith, true, List, [], ◌∷◌, some, ok, undefined}
use klevret.Prelude.{◌>>=◌, All, Ends, pos}
use klevret.Endians.{little, IsByte, from_le, to_le, network_range_to_host_endian}
use klevret.IpAddress
use klevret.IpAddress.{read_bytes}
use klevret.OptionDescription.{
  PayloadType, OptionDescription, get_one_element_payload_length_in_bytes,
}
use klevret.DhcpOption.Returning.{keeps_bytes}
use klevret.OptionDescription.{variable_length, is_correct_uint, satisfies_uint}
use klevret.OptionDescription.Table.{options_descriptions, find_description}
use klevret.DhcpOption.{DhcpOption, make_option, payload_loop, process_element, process_ip_address}
use klevret.DhcpOption.{process_uint32, read_range}
use klevret.DhcpOption.Encode
use klevret.DhcpOption.RoundTrip.{to_network_data-make_option}
use klevret.DhcpOption.Bounds.{make_option_misaligned}
use klevret.DhcpOption.Ending.{make_option-Ends}
use klevret.DhcpMessage.{DhcpMessage, default_message, of_data, to_network_data}
use klevret.DhcpMessage.Header.{of_data-to_network_data, without_names}
use klevret.DhcpMessage.Ending.{of_data-Ends}
use klevret.Tests.{mac}

-- The payload of a list of two routers, and four bytes of a lease time.
abbrev routers : List ℕ
routers = 10 ∷ 0 ∷ 0 ∷ 1 ∷ 10 ∷ 0 ∷ 0 ∷ 2 ∷ 255 ∷ []

abbrev lease : List ℕ
lease = 0 ∷ 1 ∷ 81 ∷ 128 ∷ []

routers_bytes : All IsByte routers
routers_bytes = (
  omega arith,
  (
    omega arith,
    (
      omega arith,
      (omega arith, (omega arith, (omega arith, (omega arith, (omega arith, (omega arith, tt)))))),
    ),
  ),
)

lease_bytes : All IsByte lease
lease_bytes = (omega arith, (omega arith, (omega arith, (omega arith, tt))))

router :
    (d : OptionDescription) × (find_description 3 options_descriptions ≡ some d)
    × (d.payload_description.type ≡ PayloadType.ip_address)
    × (d.payload_length ≡ variable_length)
unfolding find_description options_descriptions
router = (_, refl, refl, refl)

lease_time :
    (d : OptionDescription) × (find_description 51 options_descriptions ≡ some d)
    × (d.payload_description.type ≡ PayloadType.uint_32)
unfolding find_description options_descriptions
lease_time = (_, refl, refl)

routers_made : (o : DhcpOption) × (make_option little 3 (pos 8) 8 routers ≡ ok o)
unfolding make_option find_description options_descriptions payload_loop process_element
    process_ip_address IpAddress.from_big_endian_bytes read_bytes
    get_one_element_payload_length_in_bytes
routers_made = (_, refl)

lease_made : (o : DhcpOption) × (make_option little 51 (pos 4) 4 lease ≡ ok o)
unfolding make_option find_description options_descriptions payload_loop process_element
    process_uint32 read_range network_range_to_host_endian is_correct_uint satisfies_uint from_le
    to_le get_one_element_payload_length_in_bytes
lease_made = (_, refl)

router_keeps : keeps_bytes little router.0.payload_description.type ≡ true
router_keeps = rw (router.2) refl

to_network_data-make_option_example :
    Encode.to_network_data little routers_made.0 ≡ ok (3 ∷ 8 ∷ 10 ∷ 0 ∷ 0 ∷ 1 ∷ 10 ∷ 0 ∷ 0 ∷ 2 ∷ [])
to_network_data-make_option_example =
    to_network_data-make_option little 3 8 routers routers_made.0 router.0 routers_bytes
      (omega arith) (omega arith) router.1 router_keeps routers_made.1

make_option_misaligned_example : make_option little 3 (pos 6) 6 routers ≡ undefined
make_option_misaligned_example =
    make_option_misaligned little 3 6 routers router.0 router.1 router.2 router.3 (λ e. omega arith)

make_option-Ends_example : Ends (make_option little 3 (pos 8) 8 routers)
make_option-Ends_example = make_option-Ends little 3 (pos 8) 8 routers routers_bytes

abbrev message : DhcpMessage
message = record (default_message little) { xid = 3735928559; chaddr = some (mac 1) }

of_data-to_network_data_example :
    (to_network_data little message >>= of_data little) ≡ ok (without_names message)
of_data-to_network_data_example =
    of_data-to_network_data little message (mac 1)
      (record {
        op_byte = omega arith;
        ethernet = refl;
        xid_word = omega arith;
        secs_half = omega arith;
        flags_half = omega arith;
        has_chaddr = refl;
      })
      refl

of_data-Ends_example : Ends (of_data little routers)
of_data-Ends_example = of_data-Ends little routers routers_bytes
