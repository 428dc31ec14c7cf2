-- ===== src/IpAddress/Text.antt =====
-- The texts of addresses in dhcp/src/IpAddress.cpp: the constructor from a string, and `to_string`.
use klevret.Prelude.{ℕ, suc, ◌+◌, ◌*◌, ◌/◌, ◌%◌, ◌<◌, ◌≡◌, refl, sym, ap, ◌∙◌, arith}
use klevret.Prelude.{
  false, ◌&&◌, List, [], ◌∷◌, ◌++◌, ltb, append_assoc, Bool-cases, inl, inr, ltb→lt,
}
use klevret.Prelude.{ok, ◌>>=◌, append-nil}
use klevret.WrapperForParsing.{eot, advance, is_digit, get_next}
use klevret.IpAddress.{Ipv4Address, IsValid, octet_loop, parse_octet, parse_octets, of_string}
use klevret.IpAddress.{decimal, to_string}

-- One round of `parse_octet` on a digit.
octet_loop_step :
    (acc d acc' : ℕ) (rest : List ℕ)
    → d < 10
    → acc * 10 + d ≡ acc'
    → acc' < 1000
    → octet_loop acc (b'0' + d) rest ≡ octet_loop acc' (advance rest).ch (advance rest).rest
unfolding octet_loop
octet_loop_step acc d acc' [] h e k = ground arith
octet_loop_step acc d acc' (c ∷ cs) h e k = ground arith

octet_loop_stop :
    (acc : ℕ) (rest : List ℕ)
    → is_digit (advance rest).ch ≡ false
    → octet_loop acc (advance rest).ch (advance rest).rest ≡ (acc, advance rest)
unfolding octet_loop
octet_loop_stop acc [] h = ground arith
octet_loop_stop acc (c ∷ []) h = ground arith
octet_loop_stop acc (c ∷ d ∷ cs) h = ground arith

-- The value of a byte's digits, read from the front.
octet_loop-decimal :
    (n : ℕ) (rest : List ℕ)
    → n < 256
    → is_digit (advance rest).ch ≡ false
    → octet_loop 0 (advance (decimal n ++ rest)).ch (advance (decimal n ++ rest)).rest
      ≡ (n, advance rest)
unfolding decimal
octet_loop-decimal n rest h stop = elim (Bool-cases (ltb n 10)) [
  | inl small ↦ rw small (
      octet_loop_step 0 n n rest (omega (arith, ltb→lt)) (omega arith) (omega arith)
      ∙ octet_loop_stop n rest stop)
  | inr big ↦ rw big (elim (Bool-cases (ltb n 100)) [
    | inl two ↦ rw two (
        octet_loop_step 0 (n / 10) (n / 10) ((b'0' + n % 10) ∷ rest)
          (omega (arith, ltb→lt n 100 two)) (omega arith) (omega arith)
        ∙ octet_loop_step (n / 10) (n % 10) n rest (omega arith) (omega arith) (omega arith)
        ∙ octet_loop_stop n rest stop)
    | inr three ↦ rw three (
        octet_loop_step 0 (n / 100) (n / 100) ((b'0' + n / 10 % 10) ∷ (b'0' + n % 10) ∷ rest)
          (omega arith) (omega arith) (omega arith)
        ∙ octet_loop_step (n / 100) (n / 10 % 10) (n / 10) ((b'0' + n % 10) ∷ rest) (omega arith)
            (omega arith) (omega arith)
        ∙ octet_loop_step (n / 10) (n % 10) n rest (omega arith) (omega arith) (omega arith)
        ∙ octet_loop_stop n rest stop)
  ])
]

-- `parse_octet` reads back a byte that `to_string` wrote, up to the first character that is no digit.
pub parse_octet-decimal :
    (n : ℕ) (rest : List ℕ)
    → n < 256
    → is_digit (advance rest).ch ≡ false
    → parse_octet (advance (decimal n ++ rest)) ≡ ok (n, advance rest)
unfolding parse_octet
parse_octet-decimal n rest h stop = rw (octet_loop-decimal n rest h stop) (ground arith)

-- A byte and a dot before the last octet, and a byte with one character more at the end: the last
-- `get_next` takes that character, whatever it is.
parse_octets_dot :
    (left n : ℕ) (rest : List ℕ)
    → n < 256
    → parse_octets (suc (suc left)) (advance (decimal n ++ (b'.' ∷ rest)))
      ≡ (do (octets, w) ← parse_octets (suc left) (advance rest); ok (n ∷ octets, w))
unfolding parse_octets
parse_octets_dot left n rest h =
    let e : (ltb 0 (suc left) && false) ≡ false = ground arith in
    rw (parse_octet-decimal n (b'.' ∷ rest) h refl, e) refl

parse_octets_last :
    (n : ℕ) (rest : List ℕ)
    → n < 256
    → is_digit (advance rest).ch ≡ false
    → parse_octets 1 (advance (decimal n ++ rest)) ≡ ok (n ∷ [], get_next (advance rest))
unfolding parse_octets
parse_octets_last n rest h stop = rw (parse_octet-decimal n rest h stop) refl

-- The text of an address with more characters behind it.
text_then : Ipv4Address → List ℕ → List ℕ
text_then a more =
    decimal a.octet_0
    ++ (b'.'
        ∷ (decimal a.octet_1
            ++ (b'.' ∷ (decimal a.octet_2 ++ (b'.' ∷ (decimal a.octet_3 ++ more))))))

to_string-append : (a : Ipv4Address) (more : List ℕ) → to_string a ++ more ≡ text_then a more
unfolding to_string text_then
to_string-append a more = simp append_assoc

of_string-text_then :
    (a : Ipv4Address) (more : List ℕ)
    → IsValid a
    → is_digit (advance more).ch ≡ false
    → (get_next (advance more)).ch ≡ eot
    → of_string (text_then a more) ≡ ok a
unfolding of_string text_then
of_string-text_then a more v stop end =
    rw
      (
        parse_octets_dot 2 a.octet_0,
        v.byte_0,
        parse_octets_dot 1 a.octet_1,
        v.byte_1,
        parse_octets_dot 0 a.octet_2,
        v.byte_2,
        parse_octets_last a.octet_3 more v.byte_3 stop,
        end,
      )
      refl

-- The text that `to_string` writes of a valid address is parsed back to the address.
pub of_string-to_string : (a : Ipv4Address) → IsValid a → of_string (to_string a) ≡ ok a
of_string-to_string a v =
    ap of_string (sym (append-nil (to_string a)))
    ∙ ap of_string (to_string-append a [])
    ∙ of_string-text_then a [] v refl refl

-- The text of a valid address is still accepted with any one character behind it that is no digit.
pub of_string_junk :
    (a : Ipv4Address) (c : ℕ)
    → IsValid a
    → is_digit c ≡ false
    → of_string (to_string a ++ (c ∷ [])) ≡ ok a
of_string_junk a c v h =
    ap of_string (to_string-append a (c ∷ [])) ∙ of_string-text_then a (c ∷ []) v h refl
