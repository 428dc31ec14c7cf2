-- ===== src/UdpListener.antt =====
-- dhcp/src/UdpListener.cpp: the checksum of a header, the fragments of a datagram, and the packets of
-- `send_packet`.
pub mod Checksum
pub mod Fragments
pub mod Packet
pub mod Queue
use klevret.Prelude.{
  ℕ, zero, suc, ◌+◌, ◌-◌, ◌*◌, ◌/◌, ◌%◌, ◌^◌, ◌==◌, not, if◌then◌else◌, Bool, true, false,
}
use klevret.Prelude.{List, [], ◌∷◌, ◌++◌, length, take, drop, replicate}
use klevret.Endians.{Endian, little, big}

-- A `uint16_t` in memory, by its two bytes.
abbrev pub word : Endian → ℕ → ℕ → ℕ
word little a b = a + 256 * b
word big a b = 256 * a + b

-- `while (nbytes > 1)`, then the byte that is left, in the first byte of `oddbyte`.
unfoldable pub sum_words : Endian → List ℕ → ℕ
sum_words native [] = 0
sum_words native (a ∷ []) = word native a 0
sum_words native (a ∷ b ∷ bytes) = word native a b + sum_words native bytes

-- `answer = (short)~sum` returned as an `unsigned short`: the complement of the lowest 16 bits.
unfoldable pub calculate_checksum : Endian → List ℕ → ℕ
calculate_checksum native bytes =
    let sum = sum_words native bytes in
    let sum_1 = sum / 2 ^ 16 + sum % 2 ^ 16 in
    let sum_2 = sum_1 + sum_1 / 2 ^ 16 in 2 ^ 16 - 1 - sum_2 % 2 ^ 16

-- The arguments of `send_packet` that differ from one fragment to the next.
pub record Fragment : Type 0 where
  pub more_fragments : Bool
  pub fragment_offset : ℕ
  pub fragment_data : List ℕ

-- `memset(current_data, 0, 1024)`, and what is copied over its front.
abbrev pub current_data : List ℕ → List ℕ
current_data copied = copied ++ replicate (1024 - length copied) 0

abbrev pub packets_count : List ℕ → ℕ
packets_count bytes =
    if not (length bytes % 1024 == 0) then length bytes / 1024 + 1 else length bytes / 1024

-- The loop of `divide_and_send`; `left` is `packets_count - i`, and `rest` the data from `i * 1024`
-- on.
unfoldable pub divide_loop : ℕ → ℕ → List ℕ → List Fragment
divide_loop i zero rest = []
divide_loop i (suc left) rest =
    let last = left == 0 in
    record {
      more_fragments = not last;
      fragment_offset = i * 1024;
      fragment_data = current_data (if last then rest else take 1024 rest);
    }
    ∷ divide_loop (i + 1) left (drop 1024 rest)

unfoldable pub divide : List ℕ → List Fragment
divide bytes = divide_loop 0 (packets_count bytes) bytes
