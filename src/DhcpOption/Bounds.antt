-- ===== src/DhcpOption/Bounds.antt =====
-- dhcp/src/DhcpOption.cpp: the constructor's loop ends, and where it leaves the payload.
use klevret.Prelude.{
  ℕ, zero, suc, ◌+◌, ◌-◌, ◌%◌, ◌≤◌, ◌<◌, ◌≡◌, ◌≢◌, refl, sym, ap, ◌∙◌, arith, Bool,
}
use klevret.Prelude.{true, false, List, [], ◌∷◌, reverse, length, take, drop, All, ok}
use klevret.Prelude.{undefined, >>=-eq-ok, ◌==◌}
use klevret.Prelude.{length-drop, inl, inr, ◌⊎◌, ok-injective, eq_of_some, append-nil}
use klevret.Prelude.{pos, some, subst}
use klevret.Endians.{Endian, little, IsByte}
use klevret.IpAddress
use klevret.IpAddress.{read_bytes}
use klevret.OptionDescription.{PayloadType, OptionDescription, variable_length}
use klevret.OptionDescription.{get_one_element_payload_length_in_bytes}
use klevret.OptionDescription.Table.{options_descriptions, find_description}
use klevret.DhcpOption.{DhcpOption, element_size, process_element, payload_loop, process_ip_address}
use klevret.DhcpOption.{make_option}
use klevret.DhcpOption.Encode.{to_network_data, values_to_network_data}
use klevret.DhcpOption.Elements.{IsRead, written}
use klevret.DhcpOption.Rounds.{process_element-IsRead, true≢false}
use klevret.DhcpOption.Loop.{payload_loop_done, payload_loop_more, after}
use klevret.DhcpOption.Returning.{returns, process_element-returns}
use klevret.DhcpOption.RoundTrip.{fresh, make_option-IsMade, to_network_data-IsMade}

-- Four bytes are read as an address, and fewer are a read past the vector.
ip_address_round :
    (native : Endian) (o : DhcpOption) (n : ℕ) (rest : List ℕ)
    → ((length rest < 4) × (process_element native PayloadType.ip_address o n rest ≡ undefined))
      ⊎ ((o1 : DhcpOption) × (4 ≤ length rest)
          × (process_element native PayloadType.ip_address o n rest ≡ ok (false, o1)))
unfolding process_element process_ip_address IpAddress.from_big_endian_bytes read_bytes
ip_address_round native o n [] = inl (omega arith, refl)
ip_address_round native o n (a ∷ []) = inl (omega arith, refl)
ip_address_round native o n (a ∷ b ∷ []) = inl (omega arith, refl)
ip_address_round native o n (a ∷ b ∷ c ∷ []) = inl (omega arith, refl)
ip_address_round native o n (a ∷ b ∷ c ∷ d ∷ rest) = inr (_, omega arith, refl)

-- From a multiple of 4 the loop steps over every end that is none, up to the end of the vector.
ip_address_loop :
    (native : Endian) (fuel iter n : ℕ) (rest : List ℕ) (o : DhcpOption)
    → iter % 4 ≡ 0
    → n % 4 ≢ 0
    → length rest < fuel
    → payload_loop native fuel iter n rest PayloadType.ip_address o ≡ undefined
unfolding get_one_element_payload_length_in_bytes
ip_address_loop native zero iter n rest o hi hn hf = absurd (omega arith)
ip_address_loop native (suc fuel) iter n rest o hi hn hf =
    let differ : (iter == n) ≡ false = ground arith in
    payload_loop_more native fuel iter n rest PayloadType.ip_address o differ
    ∙ elim (ip_address_round native o (n - iter) rest) [
      | inl (short, e) ↦ rw e
      | inr (o1, fits, e) ↦ rw e (
          ip_address_loop native fuel (iter + 4) n (drop 4 rest) o1 (omega arith) hn
            (omega (arith, length-drop 4 rest)))
    ]

-- The constructor of a list of addresses reads past the message's end, whatever follows the option,
-- when the payload's length is no multiple of 4.
pub make_option_misaligned :
    (native : Endian) (code n : ℕ) (rest : List ℕ) (d : OptionDescription)
    → find_description code options_descriptions ≡ some d
    → d.payload_description.type ≡ PayloadType.ip_address
    → d.payload_length ≡ variable_length
    → n % 4 ≢ 0
    → make_option native code (pos n) n rest ≡ undefined
unfolding make_option
make_option_misaligned native code n rest d hd ht hl hn =
    rw (hd, ht, hl) (ip_address_loop native (suc (length rest)) 0 n rest _ refl hn (omega arith))

-- Behind the last element the loop ends with the object as it is.
at_end :
    (native : Endian) (fuel iter n : ℕ) (rest : List ℕ) (t : PayloadType) (o o' : DhcpOption)
    → iter ≡ n
    → payload_loop native fuel iter n rest t o ≡ ok o'
    → o ≡ o'
at_end native zero iter n rest t o o' e h = unfold payload_loop in cc
at_end native (suc fuel) iter n rest t o o' e h =
    ok-injective (sym (payload_loop_done native fuel iter n rest t o (ground arith)) ∙ h)

-- A payload of one element is read in one round.
one_element :
    (native : Endian) (t : PayloadType) (fuel n : ℕ) (rest : List ℕ) (o o' : DhcpOption)
    → All IsByte rest
    → 0 < n
    → returns t ≡ false
    → element_size t ≡ n
    → payload_loop native (suc fuel) 0 n rest t o ≡ ok o'
    → IsRead native t o o' n rest
one_element native t fuel n rest o o' hb hn back size h =
    let more : (0 == n) ≡ false = ground arith in
    let ((again, o1), e1, f1) =
      >>=-eq-ok (process_element native t o (n - 0) rest)
        (λ (s : Bool × DhcpOption). after native fuel 0 n rest t o s.0 s.1)
        (sym (payload_loop_more native fuel 0 n rest t o more) ∙ h) in
    split again o1 e1 f1
  where
    split :
        (again : Bool) (o1 : DhcpOption)
        → process_element native t o (n - 0) rest ≡ ok (again, o1)
        → after native fuel 0 n rest t o again o1 ≡ ok o'
        → IsRead native t o o' n rest
    split true o1 e1 f1 =
        absurd (true≢false (sym (process_element-returns native t o (n - 0) rest o1 e1).1 ∙ back))
    split false o1 e1 f1 =
        let r = process_element-IsRead native t o (n - 0) rest o1 hb e1 in
        let stop =
          at_end native fuel (0 + element_size t) n (drop (element_size t) rest) t o1 o'
            (omega arith) f1 in
        subst (λ k. IsRead native t o o' k rest) size
          (subst (λ k. IsRead native t o k (element_size t) rest) stop r)

values_one :
    (native : Endian) (t : PayloadType) (n : ℕ) (rest w : List ℕ) (o o' : DhcpOption)
    → o.real_values ≡ []
    → written native t (take n rest) ≡ ok w
    → IsRead native t o o' n rest
    → values_to_network_data native o'.real_values ≡ ok w
unfolding values_to_network_data
values_one native t n rest w o o' empty hw r =
    rw (r.pushed, empty, r.writes, hw) (ap ok (append-nil w))

-- On a little-endian host an option with one 32-bit unsigned number, such as a lease time, is
-- written with the four bytes of its payload in reverse.
pub to_network_data_uint_32_little :
    (code : ℕ) (rest : List ℕ) (o : DhcpOption) (d : OptionDescription)
    → All IsByte rest
    → code < 256
    → find_description code options_descriptions ≡ some d
    → d.payload_description.type ≡ PayloadType.uint_32
    → make_option little code (pos 4) 4 rest ≡ ok o
    → to_network_data little o ≡ ok (code ∷ 4 ∷ reverse (take 4 rest))
unfolding get_one_element_payload_length_in_bytes
to_network_data_uint_32_little code rest o d hb hc hd ht h =
    let (d', made) = make_option-IsMade little code 4 rest o h in
    let same : d ≡ d' = eq_of_some (sym hd ∙ made.found) in
    let type : d'.payload_description.type ≡ PayloadType.uint_32 =
      subst (λ k. k.payload_description.type ≡ PayloadType.uint_32) same ht in
    let loop =
      subst (λ t. payload_loop little (suc (length rest)) 0 4 rest t (fresh d' 4) ≡ ok o) type
        made.looped in
    let r =
      one_element little PayloadType.uint_32 (length rest) 4 rest (fresh d' 4) o hb (omega arith)
        refl refl loop in
    to_network_data-IsMade little code 4 rest o d' (reverse (take 4 rest)) hc (omega arith) made
      (ap (λ (p : DhcpOption). p.description) r.pushed)
      (ap (λ (p : DhcpOption). p.real_payload_length) r.pushed)
      (values_one little PayloadType.uint_32 4 rest _ (fresh d' 4) o refl refl r)
