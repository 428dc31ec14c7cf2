-- ===== src/DhcpMessage/Ending.antt =====
-- dhcp/src/DhcpMessage.cpp: the constructor ends on every datagram.
use klevret.Prelude.{ℕ, zero, suc, ◌+◌, ◌≤◌, ◌<◌, ◌≡◌, refl, arith, true, false, List, [], ◌∷◌}
use klevret.Prelude.{
  length, drop, All, All-drop, length-drop, Option, some, none, pos, ltb, not, ◌==◌, ◌++◌,
}
use klevret.Prelude.{
  Result, ok, Ends, >>=-Ends, throw_if-Ends, at, ◌>>=◌, ◌>>◌, get_elem?, ap, >>=-eq-ok,
  ok-injective,
}
use klevret.Prelude.{
  Bool-cases, inl, inr, ◌⊎◌, if◌then◌else◌, message_too_short, bad_magic_cookie,
  unsupported_hardware,
}
use klevret.Prelude.{mac_incomplete, subst, throw_if}
use klevret.Endians.{Endian, IsByte}
use klevret.IpAddress
use klevret.HardwareAddress.{ethernet_10mb, make_ptr_from_big_endian_bytes}
use klevret.DhcpOption.{DhcpOption, make_option, read_range}
use klevret.IpAddress.{read_bytes}
use klevret.DhcpOption.Ending.{make_option-Ends, read_range-Ends, read_bytes-Ends, address-Ends}
use klevret.DhcpMessage.{DhcpMessage, parse_header, of_data, next_option, parse_options, advance}
use klevret.DhcpMessage.{has_magic_cookie, dhcp_message_min_length}

at-Ends : {A : Type 0} (o : Option A) → Ends (at o)
at-Ends none = tt
at-Ends (some a) = tt

mac-Ends : (n : ℕ) (bytes : List ℕ) → Ends (make_ptr_from_big_endian_bytes n bytes)
unfolding make_ptr_from_big_endian_bytes
mac-Ends n bytes =
    >>=-Ends (read_bytes _ 6 n bytes) _ (read_bytes-Ends mac_incomplete 6 n bytes) (λ r. tt)

-- The bytes of the header, read with `at`.
field-Ends :
    {B : Type 0} (datagram : List ℕ) (i : ℕ) (f : ℕ → Result B)
    → ((b : ℕ) → Ends (f b))
    → Ends (at (get_elem? datagram i) >>= f)
field-Ends datagram i f h =
    >>=-Ends (at (get_elem? datagram i)) f (at-Ends (get_elem? datagram i)) h

ip-Ends :
    {B : Type 0} (datagram : List ℕ) (i : ℕ) (f : IpAddress.Ipv4Address → Result B)
    → ((a : IpAddress.Ipv4Address) → Ends (f a))
    → Ends (IpAddress.from_big_endian_bytes 4 (drop i datagram) >>= f)
ip-Ends datagram i f h =
    >>=-Ends (IpAddress.from_big_endian_bytes 4 (drop i datagram)) f
      (address-Ends 4 (drop i datagram)) h

parse_header-Ends : (datagram : List ℕ) → Ends (parse_header datagram)
unfolding parse_header
parse_header-Ends datagram = field-Ends datagram 0 _ (λ op. field-Ends datagram 1 _ (λ htype.
    field-Ends datagram 2 _ (λ hlen. field-Ends datagram 3 _ (λ hops. field-Ends datagram 4 _ (λ x0.
      field-Ends datagram 5 _ (λ x1. field-Ends datagram 6 _ (λ x2. field-Ends datagram 7 _ (λ x3.
        field-Ends datagram 8 _ (λ s0. field-Ends datagram 9 _ (λ s1.
          field-Ends datagram 10 _ (λ f0. field-Ends datagram 11 _ (λ f1.
            ip-Ends datagram 12 _ (λ ciaddr. ip-Ends datagram 16 _ (λ yiaddr.
              ip-Ends datagram 20 _ (λ siaddr. ip-Ends datagram 24 _ (λ giaddr.
                throw_if-Ends (not (htype == ethernet_10mb)) unsupported_hardware _ (
                  >>=-Ends (make_ptr_from_big_endian_bytes 6 (drop 28 datagram)) _
                    (mac-Ends 6 (drop 28 datagram))
                    (λ chaddr.
                      >>=-Ends (read_range 64 (drop 44 datagram)) _
                        (read_range-Ends 64 (drop 44 datagram))
                        (λ sname.
                          >>=-Ends (read_range 128 (drop 108 datagram)) _
                            (read_range-Ends 128 (drop 108 datagram))
                            (λ file. tt))))))))))))))))))))

advance-Ends : (n : ℕ) (rest : List ℕ) → Ends (advance n rest)
advance-Ends n rest = elim (Bool-cases (ltb (length rest) n)) [ inl e ↦ rw e tt | inr e ↦ rw e tt ]

next_option-Ends :
    (native : Endian) (code : ℕ) (rest : List ℕ)
    → All IsByte rest
    → Ends (next_option native code rest)
unfolding next_option
next_option-Ends native code [] h = tt
next_option-Ends native code (n ∷ rest) (b, h) =
    >>=-Ends (make_option native code (pos n) n rest) _
      (make_option-Ends native code (pos n) n rest h)
      (λ o. >>=-Ends (advance n rest) _ (advance-Ends n rest) (λ next. tt))

undefined≢ok : {k : List ℕ} → ◌≡◌ {A = Result (List ℕ)} Result.undefined (ok k) → ⊥
undefined≢ok e = cc

-- What is left behind an option is an end of what there was.
next_option-rest :
    (native : Endian) (code : ℕ) (rest : List ℕ) (o : DhcpOption) (next : List ℕ)
    → All IsByte rest
    → next_option native code rest ≡ ok (o, next)
    → (length next ≤ length rest) × All IsByte next
unfolding next_option
next_option-rest native code [] o next h e = cc
next_option-rest native code (n ∷ rest) o next (b, h) e =
    let (o1, f, g) = >>=-eq-ok (make_option native code (pos n) n rest) _ e in
    let (next1, i, j) = >>=-eq-ok (advance n rest) _ g in
    let same : next1 ≡ next = ap (λ (p : DhcpOption × List ℕ). p.1) (ok-injective j) in
    let (shorter, bytes) = subst (λ k. (length k ≤ length rest) × All IsByte k) same (behind i) in
    (omega arith, bytes)
  where
    behind : {k : List ℕ} → advance n rest ≡ ok k → (length k ≤ length rest) × All IsByte k
    behind i = elim (Bool-cases (ltb (length rest) n)) [
      | inl far ↦ absurd (undefined≢ok (rw far at i))
      | inr near ↦
          subst (λ k. (length k ≤ length rest) × All IsByte k) (ok-injective (rw near at i))
            (omega (arith, length-drop n rest), All-drop IsByte n rest h)
    ]

parse_options-Ends :
    (native : Endian) (fuel : ℕ) (rest : List ℕ) (options : List DhcpOption)
    → All IsByte rest
    → length rest < fuel
    → Ends (parse_options native fuel rest options)
unfolding parse_options
parse_options-Ends native zero rest options h lt = absurd (omega arith)
parse_options-Ends native (suc fuel) [] options h lt = tt
parse_options-Ends native (suc fuel) (code ∷ rest) options (b, h) lt =
    elim (Bool-cases (code == 0)) [
      | inl z ↦ rw (z, parse_options) (parse_options-Ends native fuel rest options h (omega arith))
      | inr z ↦ elim (Bool-cases (code == 255)) [
        | inl e ↦ rw (z, parse_options) (rw e tt)
        | inr e ↦
            rw (z, parse_options)
              (rw e (
                go
                  (λ next lt' h'.
                    parse_options-Ends native fuel next.1 (options ++ (next.0 ∷ [])) h' lt')
                  (next_option native code rest) refl))
      ]
    ]
  where
    go :
        ((next : DhcpOption × List ℕ)
          → length next.1 < fuel
          → All IsByte next.1
          → Ends (parse_options native fuel next.1 (options ++ (next.0 ∷ []))))
        → (m : Result (DhcpOption × List ℕ)) → next_option native code rest ≡ m
        → Ends (m >>= λ next. parse_options native fuel next.1 (options ++ (next.0 ∷ [])))
    go ih (ok (o, next)) e =
        let (shorter, bytes) = next_option-rest native code rest o next h e in
        ih (o, next) (omega arith) bytes
    go ih (Result.throw x) e = tt
    go ih Result.undefined e = tt
    go ih Result.running e = subst Ends e (next_option-Ends native code rest h)

-- The constructor ends on every datagram: its loop does not go on for ever.
pub of_data-Ends :
    (native : Endian) (datagram : List ℕ) → All IsByte datagram → Ends (of_data native datagram)
unfolding of_data
of_data-Ends native datagram h =
    throw_if-Ends (ltb (length datagram) dhcp_message_min_length) message_too_short _ (
      >>=-Ends (parse_header datagram) _ (parse_header-Ends datagram)
        (λ m. tail m (Bool-cases (ltb (length datagram) (dhcp_message_min_length + 4)))))
  where
    tail :
        (m : DhcpMessage)
        → (ltb (length datagram) (dhcp_message_min_length + 4) ≡ true)
          ⊎ (ltb (length datagram) (dhcp_message_min_length + 4) ≡ false)
        → Ends (
            if ltb (length datagram) (dhcp_message_min_length + 4) then ok m else (do
              throw_if (not (has_magic_cookie (drop 236 datagram))) bad_magic_cookie
              options ←
                  parse_options native (suc (length (drop 240 datagram))) (drop 240 datagram) []
              ok (record m { options = options })))
    tail m (inl short) = rw short tt
    tail m (inr long) = rw long (
        throw_if-Ends (not (has_magic_cookie (drop 236 datagram))) bad_magic_cookie _ (
          >>=-Ends (parse_options native (suc (length (drop 240 datagram))) (drop 240 datagram) [])
            _
            (parse_options-Ends native (suc (length (drop 240 datagram))) (drop 240 datagram) []
              (All-drop IsByte 240 datagram h) (omega arith))
            (λ options. tt)))
