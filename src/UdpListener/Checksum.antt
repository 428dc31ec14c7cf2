-- ===== src/UdpListener/Checksum.antt =====
-- dhcp/src/UdpListener.cpp: what a receiver finds when it checks the checksum.
use klevret.Prelude.{ℕ, ◌+◌, ◌*◌, ◌%◌, ◌≤◌, ◌≡◌, arith, List, [], ◌∷◌, length, All}
use klevret.Endians.{Endian, little, big, IsByte}
use klevret.UdpListener.{word, sum_words, calculate_checksum}

word_bound : (native : Endian) (a b : ℕ) → IsByte a → IsByte b → word native a b ≤ 65535
word_bound little a b p q = omega arith
word_bound big a b p q = omega arith

sum_words_bound :
    (native : Endian) (bytes : List ℕ)
    → All IsByte bytes
    → sum_words native bytes ≤ 65535 * length bytes
unfolding sum_words
sum_words_bound native [] h = omega arith
sum_words_bound native (a ∷ []) (p, h) = omega (arith, word_bound native a 0 p (omega arith))
sum_words_bound native (a ∷ b ∷ bytes) (p, (q, h)) =
    omega (arith, word_bound native a b p q, sum_words_bound native bytes h)

-- The sum of the words of at most 65536 bytes and of their checksum is a multiple of 65535, which
-- is how a receiver checks a header.
pub calculate_checksum_sum :
    (native : Endian) (bytes : List ℕ)
    → All IsByte bytes
    → length bytes ≤ 65536
    → (sum_words native bytes + calculate_checksum native bytes) % 65535 ≡ 0
unfolding calculate_checksum
calculate_checksum_sum native bytes h short = omega (arith, sum_words_bound native bytes h)
