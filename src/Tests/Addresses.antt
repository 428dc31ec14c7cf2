-- ===== src/Tests/Addresses.antt =====
-- dhcp/src/endians.hpp, IpAddress.cpp and HardwareAddress.cpp on concrete values.
use klevret.Prelude.{ℕ, ◌<◌, ◌≡◌, ◌↔◌, refl, arith, true, List, [], ◌∷◌, ◌++◌, ok}
use klevret.Endians.{little}
use klevret.IpAddress.{IsValid, of_string, to_string, to_uint32_t, less_ip}
use klevret.IpAddress.{parse_octet, octet_loop}
use klevret.IpAddress.Laws.{less_ip_iff}
use klevret.IpAddress.Text.{of_string-to_string, of_string_junk}
use klevret.IpAddress.Mask
use klevret.IpAddress.Mask.{Ipv4SubnetMask, from_prefix, to_prefix}
use klevret.Tests.{ip}

ip-IsValid : IsValid (ip 7)
ip-IsValid = record {
  byte_0 = omega arith;
  byte_1 = omega arith;
  byte_2 = omega arith;
  byte_3 = omega arith;
}

of_string-to_string_example : of_string (to_string (ip 7)) ≡ ok (ip 7)
of_string-to_string_example = of_string-to_string (ip 7) ip-IsValid

of_string_junk_example : of_string (to_string (ip 7) ++ (b'x' ∷ [])) ≡ ok (ip 7)
of_string_junk_example = of_string_junk (ip 7) b'x' ip-IsValid refl

less_ip_iff_example :
    (less_ip little (ip 1) (ip 7) ≡ true) ↔ (to_uint32_t little (ip 1) < to_uint32_t little (ip 7))
less_ip_iff_example = less_ip_iff little (ip 1) (ip 7)

-- "255.255.255.128" and an object whose memory holds 9.9.9.9.
abbrev mask_text : List ℕ
mask_text =
    b'2' ∷ b'5' ∷ b'5' ∷ b'.' ∷ b'2' ∷ b'5' ∷ b'5' ∷ b'.' ∷ b'2' ∷ b'5' ∷ b'5' ∷ b'.' ∷ b'1' ∷ b'2'
    ∷ b'8' ∷ []

abbrev memory : Ipv4SubnetMask
memory = record { mask_0 = 9; mask_1 = 9; mask_2 = 9; mask_3 = 9 }

mask_read : (m : Ipv4SubnetMask) × (Mask.of_string memory mask_text ≡ ok m)
unfolding Mask.of_string parse_octet octet_loop
mask_read = (_, refl)
