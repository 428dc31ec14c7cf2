-- ===== src/DhcpOption/Ending.antt =====
-- dhcp/src/DhcpOption.cpp: the constructor ends on every input.
use klevret.Prelude.{ℕ, zero, suc, ◌+◌, ◌-◌, ◌<◌, ◌≡◌, refl, arith, Bool, true, false, List}
use klevret.Prelude.{
  [], ◌∷◌, length, drop, All, Result, ok, Ends, >>=-Ends, throw_if-Ends, Error, at,
}
use klevret.Prelude.{
  ◌==◌, ◌&&◌, not, ltb, ℤ, pos, eq_ℤ, Bool-cases, inl, inr, length-drop, All-drop,
}
use klevret.Prelude.{
  subst, ◌>>=◌, wrap_ℤ, ◌^◌, constraint_violated, too_short, wrong_payload_length,
  wrong_payload_type, empty_value, Option, some, none,
}
use klevret.Endians.{Endian, IsByte, network_range_to_host_endian}
use klevret.IpAddress
use klevret.IpAddress.{read_bytes}
use klevret.IpAddress.Mask
use klevret.OptionDescription.{PayloadType, OptionDescription, variable_length, is_correct_uint}
use klevret.OptionDescription.{PayloadDescription, holds_uint, holds_int, satisfies_uint}
use klevret.OptionDescription.{
  satisfies_int, is_correct_int, get_one_element_payload_length_in_bytes,
}
use klevret.OptionDescription.Table.{options_descriptions, find_description}
use klevret.DhcpOption.{
  DhcpOption, RealValue, element_size, process_element, payload_loop, push_uint,
}
use klevret.DhcpOption.{make_option, is_none, read_range, process_ip_address, process_subnet_mask}
use klevret.DhcpOption.{process_ip_address_with_mask, process_two_ip_addresses, process_uint8}
use klevret.DhcpOption.{process_uint16, process_uint32, process_int32, process_flag}
use klevret.DhcpOption.{process_uint_enum, process_vendor_specific_field, process_byte_array}
use klevret.DhcpOption.{process_string, push, signed32}
use klevret.DhcpOption.Rounds.{process_element-IsRead}
use klevret.DhcpOption.Loop.{payload_loop_done, payload_loop_more, after}

pub read_range-Ends : (n : ℕ) (rest : List ℕ) → Ends (read_range n rest)
unfolding read_range
read_range-Ends zero rest = tt
read_range-Ends (suc n) [] = tt
read_range-Ends (suc n) (b ∷ rest) =
    >>=-Ends (read_range n rest) _ (read_range-Ends n rest) (λ r. tt)

pub read_bytes-Ends : (e : Error) (room n : ℕ) (bytes : List ℕ) → Ends (read_bytes e room n bytes)
unfolding read_bytes
read_bytes-Ends e zero n bytes = tt
read_bytes-Ends e (suc room) zero bytes = tt
read_bytes-Ends e (suc room) (suc n) [] = tt
read_bytes-Ends e (suc room) (suc n) (b ∷ bytes) =
    >>=-Ends (read_bytes e room n bytes) _ (read_bytes-Ends e room n bytes) (λ r. tt)

pub address-Ends : (n : ℕ) (bytes : List ℕ) → Ends (IpAddress.from_big_endian_bytes n bytes)
unfolding IpAddress.from_big_endian_bytes
address-Ends n bytes = >>=-Ends (read_bytes _ 4 n bytes) _ (read_bytes-Ends _ 4 n bytes) (λ r. tt)

mask-Ends : (n : ℕ) (bytes : List ℕ) → Ends (Mask.from_big_endian_bytes n bytes)
unfolding Mask.from_big_endian_bytes
mask-Ends n bytes = >>=-Ends (read_bytes _ 4 n bytes) _ (read_bytes-Ends _ 4 n bytes) (λ r. tt)

word-Ends :
    (native : Endian) (size : ℕ) (range : List ℕ)
    → Ends (network_range_to_host_endian native size range)
unfolding network_range_to_host_endian
word-Ends native size range = throw_if-Ends (not (length range == size)) _ _ tt

is_correct_uint-Ends : (d : PayloadDescription) (v : ℕ) → Ends (is_correct_uint d v)
unfolding is_correct_uint
is_correct_uint-Ends d v =
    throw_if-Ends (not (holds_uint d.type)) wrong_payload_type
      (ok (satisfies_uint d.int_constraint d.int_constraint.type v)) tt

is_correct_int-Ends : (d : PayloadDescription) (v : ℤ) → Ends (is_correct_int d v)
unfolding is_correct_int
is_correct_int-Ends d v =
    throw_if-Ends (not (holds_int d.type)) wrong_payload_type
      (ok (satisfies_int d.int_constraint d.int_constraint.type v)) tt

push_uint-Ends : (o : DhcpOption) (value : ℕ) (v : RealValue) → Ends (push_uint o value v)
push_uint-Ends o value v =
    >>=-Ends (is_correct_uint o.description.payload_description value) _
      (is_correct_uint-Ends o.description.payload_description value)
      (λ correct. throw_if-Ends (not correct) constraint_violated (ok (push o v)) tt)

-- A word is read and handed on.
read_word-Ends :
    (native : Endian) (size : ℕ) (rest : List ℕ) (f : ℕ → Result DhcpOption)
    → ((v : ℕ) → Ends (f v))
    → Ends (do r ← read_range size rest; v ← network_range_to_host_endian native size r; f v)
read_word-Ends native size rest f h =
    >>=-Ends (read_range size rest) _ (read_range-Ends size rest)
      (λ r. >>=-Ends (network_range_to_host_endian native size r) f (word-Ends native size r) h)

-- The round of a type that goes on, or returns, after its function.
tagged-Ends :
    (m : Result DhcpOption) (again : Bool)
    → Ends m
    → Ends (◌>>=◌ {B = Bool × DhcpOption} m (λ p. ok (again, p)))
tagged-Ends m again h = >>=-Ends {B = Bool × DhcpOption} m (λ p. ok (again, p)) h (λ p. tt)

process_element-Ends :
    (native : Endian) (t : PayloadType) (o : DhcpOption) (n : ℕ) (rest : List ℕ)
    → Ends (process_element native t o n rest)
unfolding process_element process_ip_address process_subnet_mask process_ip_address_with_mask
    process_two_ip_addresses process_uint16 process_uint32 process_int32
    process_vendor_specific_field process_byte_array process_string is_correct_int process_uint8
    process_uint_enum process_flag
process_element-Ends native PayloadType.none o n rest = tt
process_element-Ends native PayloadType.ip_address o n rest =
    tagged-Ends (process_ip_address o rest) false
      (>>=-Ends (IpAddress.from_big_endian_bytes 4 rest) _ (address-Ends 4 rest) (λ a. tt))
process_element-Ends native PayloadType.subnet_mask o n rest =
    tagged-Ends (process_subnet_mask o rest) false
      (>>=-Ends (Mask.from_big_endian_bytes 4 rest) _ (mask-Ends 4 rest) (λ a. tt))
process_element-Ends native PayloadType.ip_address_with_subnet_mask o n rest =
    tagged-Ends (process_ip_address_with_mask o rest) false (
      >>=-Ends (IpAddress.from_big_endian_bytes 4 rest) _ (address-Ends 4 rest) (λ a.
        >>=-Ends (Mask.from_big_endian_bytes 4 (drop 4 rest)) _ (mask-Ends 4 (drop 4 rest))
          (λ m. tt)))
process_element-Ends native PayloadType.two_ip_addresses o n rest =
    tagged-Ends (process_two_ip_addresses o rest) false (
      >>=-Ends (IpAddress.from_big_endian_bytes 4 rest) _ (address-Ends 4 rest) (λ a.
        >>=-Ends (IpAddress.from_big_endian_bytes 4 (drop 4 rest)) _ (address-Ends 4 (drop 4 rest))
          (λ m. tt)))
process_element-Ends native PayloadType.uint_8 o n [] = tt
process_element-Ends native PayloadType.uint_8 o n (b ∷ rest) =
    tagged-Ends (process_uint8 o (b ∷ rest)) false (push_uint-Ends o b _)
process_element-Ends native PayloadType.uint_16 o n rest =
    tagged-Ends (process_uint16 o native rest) false
      (read_word-Ends native 2 rest _ (λ v. push_uint-Ends o v _))
process_element-Ends native PayloadType.uint_32 o n rest =
    tagged-Ends (process_uint32 o native rest) false
      (read_word-Ends native 4 rest _ (λ v. push_uint-Ends o v _))
process_element-Ends native PayloadType.int_32 o n rest =
    tagged-Ends (process_int32 o native rest) false (
      read_word-Ends native 4 rest _ (λ v.
        >>=-Ends (is_correct_int o.description.payload_description (signed32 v)) _
          (is_correct_int-Ends o.description.payload_description (signed32 v))
          (λ c.
            throw_if-Ends (not c) constraint_violated (ok (push o (RealValue.int32 (signed32 v))))
              tt)))
process_element-Ends native PayloadType.flag o n [] = tt
process_element-Ends native PayloadType.flag o n (b ∷ rest) = tt
process_element-Ends native PayloadType.uint_enum o n [] = tt
process_element-Ends native PayloadType.uint_enum o n (b ∷ rest) =
    tagged-Ends (process_uint_enum o (b ∷ rest)) false (push_uint-Ends o b _)
process_element-Ends native PayloadType.vendor_specific_field o n rest =
    tagged-Ends (process_vendor_specific_field o n rest) true
      (>>=-Ends (read_range n rest) _ (read_range-Ends n rest) (λ r. tt))
process_element-Ends native PayloadType.byte_array o n rest =
    tagged-Ends (process_byte_array o n rest) true (
      >>=-Ends (read_range n rest) _ (read_range-Ends n rest) (λ r.
        throw_if-Ends
          (eq_ℤ o.description.payload_length variable_length
            && ltb (length r)
                (wrap_ℤ (2 ^ 32) o.description.payload_description.min_len_in_elements))
          too_short _
          (throw_if-Ends
            (not (eq_ℤ o.description.payload_length variable_length)
              && not (eq_ℤ o.description.payload_length (pos (length r))))
            wrong_payload_length (ok (push o (RealValue.bytes r))) tt)))
process_element-Ends native PayloadType.string o n rest =
    tagged-Ends (process_string o n rest) true
      (>>=-Ends (read_range n rest) _ (read_range-Ends n rest) (λ r. tt))

-- A type whose rounds go on has elements of one byte at least.
element_size_pos :
    (native : Endian) (t : PayloadType) (o : DhcpOption) (n : ℕ) (rest : List ℕ) (o' : DhcpOption)
    → process_element native t o n rest ≡ ok (false, o')
    → 0 < element_size t
unfolding process_element get_one_element_payload_length_in_bytes
element_size_pos native PayloadType.none o n rest o' e = cc
element_size_pos native _ o n rest o' e = omega arith

payload_loop-Ends :
    (native : Endian) (fuel iter n : ℕ) (rest : List ℕ) (t : PayloadType) (o : DhcpOption)
    → All IsByte rest
    → length rest < fuel
    → Ends (payload_loop native fuel iter n rest t o)
payload_loop-Ends native zero iter n rest t o hb hf = absurd (omega arith)
payload_loop-Ends native (suc fuel) iter n rest t o hb hf = elim (Bool-cases (iter == n)) [
  | inl done ↦ rw (payload_loop_done native fuel iter n rest t o done) tt
  | inr more ↦ rw (payload_loop_more native fuel iter n rest t o more) (
      split
        (λ o1 fits.
          payload_loop-Ends native fuel (iter + s) n (drop s rest) t o1 (All-drop IsByte s rest hb)
            fits)
        (process_element native t o (n - iter) rest) refl)
]
  where
    s : ℕ
    s = element_size t

    split :
        ((o1 : DhcpOption)
          → length (drop s rest) < fuel
          → Ends (payload_loop native fuel (iter + s) n (drop s rest) t o1))
        → (m : Result (Bool × DhcpOption)) → process_element native t o (n - iter) rest ≡ m
        → Ends (m >>= λ step. after native fuel iter n rest t o step.0 step.1)
    split ih (ok (true, o1)) e = tt
    split ih (ok (false, o1)) e =
        let r = process_element-IsRead native t o (n - iter) rest o1 hb e in
        let p = element_size_pos native t o (n - iter) rest o1 e in
        ih o1 (omega (arith, length-drop s rest))
    split ih (Result.throw x) e = tt
    split ih Result.undefined e = tt
    split ih Result.running e = subst Ends e (process_element-Ends native t o (n - iter) rest)

-- The constructor ends on every code, length and payload: no run of its loop goes on for ever.
pub make_option-Ends :
    (native : Endian) (code : ℕ) (real_payload_length : ℤ) (n : ℕ) (rest : List ℕ)
    → All IsByte rest
    → Ends (make_option native code real_payload_length n rest)
unfolding make_option
make_option-Ends native code real n rest hb =
    >>=-Ends (at (find_description code options_descriptions)) _
      (at-Ends (find_description code options_descriptions))
      (λ d.
        throw_if-Ends
          (not (eq_ℤ d.payload_length variable_length) && not (eq_ℤ d.payload_length real))
          wrong_payload_length _
          (throw_if-Ends (is_none d.payload_description.type) empty_value _ (
            payload_loop-Ends native (suc (length rest)) 0 n rest d.payload_description.type _ hb
              (omega arith))))
  where
    at-Ends : (o : Option OptionDescription) → Ends (at o)
    at-Ends none = tt
    at-Ends (some d) = tt
