-- ===== src/IpAddress/Mask.antt =====
-- dhcp/src/IpAddress.cpp, the class IPv4SubnetMask.
pub mod Laws
use Prim.Native.Nat.{bit_and, bit_or}
use klevret.Prelude.{
  ℕ, zero, suc, ◌+◌, ◌*◌, ◌/◌, ◌^◌, ◌==◌, ltb, leb, not, ◌&&◌, ◌||◌, ℤ, pos, negsuc,
}
use klevret.Prelude.{if◌then◌else◌, Bool, true, false, List, [], ◌∷◌, ◌++◌, Result, ok, throw_if}
use klevret.Prelude.{too_few_octets, dot_expected, unknown_symbol, bad_mask_octet}
use klevret.Prelude.{mask_not_contiguous, bad_prefix, throw, leb_ℤ, ◌>>=◌, ◌>>◌}
use klevret.Endians.{Endian, host_to_network_endian_array}
use klevret.WrapperForParsing.{WrapperForParsing, eot, get_next, wrap}
use klevret.IpAddress.{value_or, read_bytes, parse_octet, decimal}

pub record Ipv4SubnetMask : Type 0 where
  pub mask_0 : ℕ
  pub mask_1 : ℕ
  pub mask_2 : ℕ
  pub mask_3 : ℕ

abbrev pub data_of : Ipv4SubnetMask → List ℕ
data_of m = m.mask_0 ∷ m.mask_1 ∷ m.mask_2 ∷ m.mask_3 ∷ []

abbrev pub with_data : List ℕ → Ipv4SubnetMask
with_data (a ∷ b ∷ c ∷ d ∷ _) = record { mask_0 = a; mask_1 = b; mask_2 = c; mask_3 = d }
with_data _ = record { mask_0 = 0; mask_1 = 0; mask_2 = 0; mask_3 = 0 }

unfoldable pub from_big_endian_bytes : ℕ → List ℕ → Result Ipv4SubnetMask
from_big_endian_bytes n bytes = do
  octets ← read_bytes too_few_octets 4 n bytes
  ok (with_data octets)

-- `IPv4SubnetMask(uint32_t mask)`
unfoldable pub of_uint32_t : Endian → ℕ → Ipv4SubnetMask
of_uint32_t native mask = with_data (value_or [] (host_to_network_endian_array native 4 4 mask))

-- `std::find` in `allowed_mask_values`
abbrev pub is_allowed : ℕ → Bool
is_allowed o =
    o == 128 || o == 192 || o == 224 || o == 240 || o == 248 || o == 252 || o == 254 || o == 255

-- The loop of `IPv4SubnetMask(std::string)`; `left` is `4 - i`, so `i != 3` is `1 < left`.
unfoldable pub mask_loop : ℕ → ℕ → WrapperForParsing → Result WrapperForParsing
mask_loop zero previous w = ok w
mask_loop (suc left) previous w = do
  (octet, w') ← parse_octet w
  throw_if (not (is_allowed octet)) bad_mask_octet
  throw_if (not (previous == 255)) mask_not_contiguous
  throw_if (ltb 0 left && not (w'.ch == b'.')) dot_expected
  mask_loop left octet (if ltb 0 left then get_next w' else w')

-- `IPv4SubnetMask(std::string mask)`. The constructor never writes `_data`: the object keeps what
-- stood in its memory, `memory`.
unfoldable pub of_string : Ipv4SubnetMask → List ℕ → Result Ipv4SubnetMask
unfolding mask_loop
of_string memory mask = do
  w ← mask_loop 4 255 (wrap mask)
  throw_if (not (w.ch == eot)) unknown_symbol
  ok memory

-- `for (int i = 0; i < prefix; ++i) { mask |= one; one >>= 1; }`, by the rounds left.
unfoldable pub prefix_loop : ℕ → ℕ → ℕ → ℕ
prefix_loop zero mask one = mask
prefix_loop (suc left) mask one = prefix_loop left (bit_or mask one) (one / 2)

unfoldable pub from_prefix : Endian → ℤ → Result Ipv4SubnetMask
unfolding prefix_loop
from_prefix native (negsuc n) = throw bad_prefix
from_prefix native (pos prefix) = do
  throw_if (ltb 32 prefix) bad_prefix
  ok (of_uint32_t native (prefix_loop prefix 0 128))

unfoldable pub to_string : Ipv4SubnetMask → List ℕ
to_string m =
    decimal m.mask_0
    ++ (b'.' ∷ (decimal m.mask_1 ++ (b'.' ∷ (decimal m.mask_2 ++ (b'.' ∷ decimal m.mask_3)))))

-- The inner loop of `to_prefix`, by the rounds left; `one` is a uint8_t.
unfoldable pub count_bits : ℕ → ℕ → ℕ → ℕ → ℕ
count_bits zero octet one prefix = prefix
count_bits (suc left) octet one prefix =
    count_bits left octet (one / 2) (if not (bit_and octet one == 0) then prefix + 1 else prefix)

unfoldable pub prefix_of : List ℕ → ℕ → ℕ
unfolding count_bits
prefix_of [] prefix = prefix
prefix_of (octet ∷ octets) prefix = prefix_of octets (count_bits 8 octet 128 prefix)

unfoldable pub to_prefix : Ipv4SubnetMask → ℕ
unfolding prefix_of
to_prefix m = prefix_of (data_of m) 0

abbrev pub to_network_data : Ipv4SubnetMask → List ℕ
to_network_data m = data_of m
