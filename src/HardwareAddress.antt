-- ===== src/HardwareAddress.antt =====
-- dhcp/src/HardwareAddress.cpp and HardwareAddress.hpp: MAC addresses.
-- The only class below `HardwareAddress` is `MacAddress`. Hardware types are their codes, since the
-- code casts any byte of a message to the enumeration.
pub mod Laws
use klevret.Prelude.{ℕ, zero, suc, ◌+◌, ◌-◌, ◌/◌, ◌%◌, ◌==◌, ltb, leb, ◌&&◌, if◌then◌else◌, Bool}
use klevret.Prelude.{true, false, List, [], ◌∷◌, ◌++◌, replicate, ℤ, pos, negsuc, Result, ok}
use klevret.Prelude.{mac_incomplete, ◌>>=◌}
use klevret.Endians.{IsByte}
use klevret.IpAddress.{read_bytes}

abbrev pub ethernet_10mb : ℕ
ethernet_10mb = 1

-- The enumerators are 1 to 21; the `switch` knows the length of the first, gives -1 for the others,
-- and any other value falls through to 0.
unfoldable pub get_hardware_address_length : ℕ → ℤ
get_hardware_address_length htype =
    if htype == ethernet_10mb
    then pos 6
    else if leb 2 htype && leb htype 21
    then negsuc 0
    else pos 0

pub record MacAddress : Type 0 where
  pub byte_0 : ℕ
  pub byte_1 : ℕ
  pub byte_2 : ℕ
  pub byte_3 : ℕ
  pub byte_4 : ℕ
  pub byte_5 : ℕ

abbrev pub data_of : MacAddress → List ℕ
data_of m = m.byte_0 ∷ m.byte_1 ∷ m.byte_2 ∷ m.byte_3 ∷ m.byte_4 ∷ m.byte_5 ∷ []

abbrev pub with_data : List ℕ → MacAddress
with_data (a ∷ b ∷ c ∷ d ∷ e ∷ f ∷ _) = record {
  byte_0 = a;
  byte_1 = b;
  byte_2 = c;
  byte_3 = d;
  byte_4 = e;
  byte_5 = f;
}
with_data _ = record { byte_0 = 0; byte_1 = 0; byte_2 = 0; byte_3 = 0; byte_4 = 0; byte_5 = 0 }

unfoldable pub from_big_endian_bytes : ℕ → List ℕ → Result MacAddress
from_big_endian_bytes n bytes = do
  octets ← read_bytes mac_incomplete 6 n bytes
  ok (with_data octets)

-- The same loop on an object made by `new`; where it throws, that object is lost.
unfoldable pub make_ptr_from_big_endian_bytes : ℕ → List ℕ → Result MacAddress
make_ptr_from_big_endian_bytes n bytes = do
  octets ← read_bytes mac_incomplete 6 n bytes
  ok (with_data octets)

-- A hexadecimal digit, and a byte with `setw(2)` and `setfill('0')`.
abbrev hex_digit : ℕ → ℕ
hex_digit d = if ltb d 10 then b'0' + d else b'a' + (d - 10)

unfoldable pub hex_byte : ℕ → List ℕ
hex_byte b = hex_digit (b / 16) ∷ hex_digit (b % 16) ∷ []

unfoldable pub join_hex : List ℕ → List ℕ
unfolding hex_byte
join_hex [] = []
join_hex (b ∷ []) = hex_byte b
join_hex (b ∷ c ∷ bs) = hex_byte b ++ (b':' ∷ join_hex (c ∷ bs))

unfoldable pub to_string : MacAddress → List ℕ
unfolding join_hex
to_string m = join_hex (data_of m)

-- `result.fill(0)` on 16 bytes, then the six bytes of the address over the first six.
abbrev pub to_chaddr : MacAddress → List ℕ
to_chaddr m = data_of m ++ replicate 10 0

-- The loop of `operator<`: it compares `data[i]` from the front.
unfoldable pub less_from : List ℕ → List ℕ → Bool
less_from (a ∷ xs) (b ∷ ys) = if ltb b a then false else if ltb a b then true else less_from xs ys
less_from _ _ = false

unfoldable pub less_mac : MacAddress → MacAddress → Bool
unfolding less_from
less_mac lhs rhs = less_from (data_of lhs) (data_of rhs)

-- `operator==`
abbrev pub eq_mac : MacAddress → MacAddress → Bool
eq_mac a b =
    a.byte_0 == b.byte_0
    && (a.byte_1 == b.byte_1
        && (a.byte_2 == b.byte_2
            && (a.byte_3 == b.byte_3 && (a.byte_4 == b.byte_4 && a.byte_5 == b.byte_5))))
