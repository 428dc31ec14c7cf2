-- ===== src/Endians.antt =====
-- dhcp/src/endians.hpp: conversions between network byte order and the host's integers.
-- `std::endian::native` is the platform's, so every function takes it; `sizeof(T)` is an argument.
pub mod Laws
use klevret.Prelude.{ℕ, zero, suc, ◌+◌, ◌*◌, ◌/◌, ◌%◌, ◌<◌, ◌==◌, not, if◌then◌else◌, length}
use klevret.Prelude.{Bool, true, false, List, [], ◌∷◌, reverse}
use klevret.Prelude.{Result, ok, wrong_byte_count, throw_if, ◌>>=◌, ◌>>◌}

pub data Endian : Type 0 where
  little big : Endian

abbrev pub IsByte : ℕ → Type 0
IsByte b = b < 256

-- The number that bytes stand for, lowest byte first, and back.
unfoldable pub from_le : List ℕ → ℕ
from_le [] = 0
from_le (b ∷ bs) = b + 256 * from_le bs

unfoldable pub to_le : ℕ → ℕ → List ℕ
to_le zero v = []
to_le (suc n) v = (v % 256) ∷ to_le n (v / 256)

-- Between an integer's bytes in memory and its bytes lowest first.
abbrev pub in_memory : Endian → List ℕ → List ℕ
in_memory little bs = bs
in_memory big bs = reverse bs

-- `std::bit_cast<T>(arr)` and `std::bit_cast<std::array<uint8_t, SIZE>>(value)`
abbrev pub bit_cast_int : Endian → List ℕ → ℕ
bit_cast_int native arr = from_le (in_memory native arr)

abbrev pub bit_cast_array : Endian → ℕ → ℕ → List ℕ
bit_cast_array native size v = in_memory native (to_le size v)

-- `std::byteswap`
abbrev pub byteswap : ℕ → ℕ → ℕ
byteswap size v = from_le (reverse (to_le size v))

-- `std::endian::native == std::endian::little`
abbrev pub is_little : Endian → Bool
is_little little = true
is_little big = false

unfoldable pub network_array_to_host_endian : Endian → ℕ → List ℕ → Result ℕ
network_array_to_host_endian native size arr = do
  throw_if (not (length arr == size)) wrong_byte_count
  let result = bit_cast_int native arr
  ok (if is_little native then byteswap size result else result)

-- The overload on a pair of iterators: the list is what stands between them.
unfoldable pub network_range_to_host_endian : Endian → ℕ → List ℕ → Result ℕ
network_range_to_host_endian native size range = do
  throw_if (not (length range == size)) wrong_byte_count
  let result = bit_cast_int native range
  ok (if is_little native then byteswap size result else result)

-- The overload on an integer.
unfoldable pub network_to_host_endian : Endian → ℕ → ℕ → ℕ
network_to_host_endian native size value = if is_little native then byteswap size value else value

-- `array_size` is the template's SIZE, `size` is `sizeof(T)`.
unfoldable pub host_to_network_endian_array : Endian → ℕ → ℕ → ℕ → Result (List ℕ)
host_to_network_endian_array native size array_size value = do
  throw_if (not (array_size == size)) wrong_byte_count
  let value' = if is_little native then byteswap size value else value
  ok (bit_cast_array native array_size value')
