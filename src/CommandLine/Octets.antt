-- ===== src/CommandLine/Octets.antt =====
-- cli/src/Command.cpp and ip_addresses.cpp: what `parse_ipv4_address` accepts, the constructor of
-- IPv4Address reads.
use klevret.Prelude.{ℕ, zero, suc, ◌≡◌, refl, ap, arith, ltb, ◌==◌, not}
use klevret.Prelude.{
  Bool, true, false, Bool-cases, inl, inr, List, [], ◌∷◌, All, length, Option, none, some,
}
use klevret.Prelude.{Result, ok, throw, undefined, running, >>=-eq-ok, caught, if◌then◌else◌}
use klevret.Endians.{IsByte}
use klevret.WrapperForParsing.{WrapperForParsing, wrap, check, get_next, is_digit}
use klevret.IpAddress
use klevret.IpAddress.{Ipv4Address, IsValid, with_data}
use klevret.IpAddress.Text.{of_string-to_string}
use klevret.CommandLine.Addresses.{digits_loop, parse_octet, read_octets, of_string, to_string}
use klevret.CommandLine.Elements.{parse_number, after_number, check_octets, parse_ipv4_address}

caught-some : {A : Type 0} (r : Result A) (a : A) → caught r ≡ ok (some a) → r ≡ ok a
caught-some (ok b) a h = cc
caught-some (throw e) a h = cc
caught-some undefined a h = cc
caught-some running a h = cc

-- A number that `parse_number` reads is read as an octet, if it is a byte.
parse_octet-parse_number :
    (w : WrapperForParsing) (n : ℕ) (w' : WrapperForParsing)
    → parse_number w ≡ ok (n, w')
    → ltb 255 n ≡ false
    → parse_octet w ≡ ok (n, w')
unfolding parse_number parse_octet
parse_octet-parse_number w n w' h b = elim (Bool-cases (is_digit w.ch)) [
  | inl d ↦
      let read : digits_loop 0 w.ch w.rest ≡ ok (n, w') = rw (d, parse_number) at h in
      rw (read, b) refl
  | inr d ↦
      let stopped : ◌≡◌ {A = Result (ℕ × WrapperForParsing)} (throw _) (ok (n, w')) =
        rw (d, parse_number) at h in
      cc
]

-- What the constructor reads where the check of the remaining octets succeeds.
AreOctets : ℕ → WrapperForParsing → Type 0
AreOctets left w =
    (octets : List ℕ) × (read_octets left w ≡ ok octets)
    × All IsByte octets
    × (length octets ≡ left)

-- A byte, and the octets behind it.
AreOctets-cons :
    (left octet : ℕ) (w w' w'' : WrapperForParsing)
    → parse_octet w ≡ ok (octet, w')
    → (if left == 0 then ok w' else check b'.' w') ≡ ok w''
    → IsByte octet
    → AreOctets left w''
    → AreOctets (suc left) w
unfolding read_octets AreOctets
AreOctets-cons left octet w w' w'' e f b (octets, g, v, l) =
    (octet ∷ octets, rw (e, f, g) refl, (b, v), ap suc l)

-- One round of the check.
AreOctets-step :
    (left : ℕ) (w : WrapperForParsing) (number : Option (ℕ × WrapperForParsing))
    → caught (parse_number w) ≡ ok number
    → after_number left (check_octets left) number ≡ ok true
    → ((v : WrapperForParsing) → check_octets left v ≡ ok true → AreOctets left v)
    → AreOctets (suc left) w
AreOctets-step left w none e h ih = absurd (cc)
AreOctets-step left w (some (octet, w')) e h ih = elim (Bool-cases (ltb 255 octet)) [
  | inl big ↦ let wrong : ◌≡◌ {A = Result Bool} (ok false) (ok true) = rw big at h in absurd (cc)
  | inr small ↦
      let read = parse_octet-parse_number w octet w' (caught-some (parse_number w) _ e) small in
      let byte : IsByte octet = ground arith in last_or_not left read byte (rw small at h) ih
]
  where
    more : (n : ℕ) → (suc n == 0) ≡ false
    more n = ground arith

    last_or_not :
        (left : ℕ)
        → parse_octet w ≡ ok (octet, w')
        → IsByte octet
        → (if left == 0
            then check_octets left w'
            else if not (w'.ch == b'.')
            then ok false
            else check_octets left (get_next w'))
          ≡ ok true
        → ((v : WrapperForParsing) → check_octets left v ≡ ok true → AreOctets left v)
        → AreOctets (suc left) w
    last_or_not zero read byte k ih = AreOctets-cons 0 octet w w' w' read refl byte (ih w' k)
    last_or_not (suc left) read byte k ih = elim (Bool-cases (w'.ch == b'.')) [
      | inl dot ↦
          AreOctets-cons (suc left) octet w w' (get_next w') read (rw (more left, dot) refl) byte
            (ih (get_next w') (rw (more left, dot) at k))
      | inr other ↦
          let wrong : ◌≡◌ {A = Result Bool} (ok false) (ok true) = rw (more left, other) at k in
          absurd (cc)
    ]

read_octets-check_octets :
    (left : ℕ) (w : WrapperForParsing) → check_octets left w ≡ ok true → AreOctets left w
unfolding check_octets read_octets AreOctets
read_octets-check_octets zero w h = ([], refl, tt, refl)
read_octets-check_octets (suc left) w h =
    let (number, e, f) = >>=-eq-ok (caught (parse_number w)) _ h in
    AreOctets-step left w number e f (read_octets-check_octets left)

with_data-IsValid :
    (octets : List ℕ) → All IsByte octets → length octets ≡ 4 → IsValid (with_data octets)
with_data-IsValid [] v l = absurd (omega arith)
with_data-IsValid (a ∷ []) v l = absurd (omega arith)
with_data-IsValid (a ∷ b ∷ []) v l = absurd (omega arith)
with_data-IsValid (a ∷ b ∷ c ∷ []) v l = absurd (omega arith)
with_data-IsValid (a ∷ b ∷ c ∷ d ∷ more) (i, (j, (k, (m, rest)))) l = record {
  byte_0 = i;
  byte_1 = j;
  byte_2 = k;
  byte_3 = m;
}

-- A text that `parse_ipv4_address` accepts is read by the constructor of IPv4Address, as an address
-- whose text the constructor of the DHCP server reads as the same address.
pub of_string-parse_ipv4_address :
    (str : List ℕ)
    → parse_ipv4_address str ≡ ok true
    → (a : Ipv4Address) × (of_string str ≡ ok a)
      × IsValid a
      × (IpAddress.of_string (to_string a) ≡ ok a)
unfolding parse_ipv4_address of_string to_string AreOctets IpAddress.to_string
of_string-parse_ipv4_address str h =
    let (octets, e, v, l) = read_octets-check_octets 4 (wrap str) h in
    let valid = with_data-IsValid octets v l in
    (with_data octets, rw e refl, valid, of_string-to_string (with_data octets) valid)
