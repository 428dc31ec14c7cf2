-- ===== src/DhcpOption/Returning.antt =====
-- dhcp/src/DhcpOption.cpp: the rounds after which the constructor returns, and the bytes of the values.
use klevret.Prelude.{ℕ, ◌≡◌, refl, sym, ap, ◌∙◌, arith, Bool}
use klevret.Prelude.{true, false, List, [], ◌∷◌, ◌++◌, ok}
use klevret.Prelude.{ok-injective, >>=-eq-ok}
use klevret.Prelude.{append-nil, append_assoc}
use klevret.Endians.{Endian, little, big}
use klevret.OptionDescription.{PayloadType}
use klevret.DhcpOption.{DhcpOption, RealValue, push, process_element}
use klevret.DhcpOption.{
  process_vendor_specific_field, process_byte_array, process_string, read_range,
}
use klevret.DhcpOption.Encode.{value_to_network_data, values_to_network_data}
use klevret.DhcpOption.Elements.{IsRead, written, read_range-take}
use klevret.DhcpOption.Rounds.{returned, true≢false}
use mathlib.Core.List.{reverse-reverse}

-- Whether the bytes of this type are written as they were read: integers of several bytes are, on
-- a big-endian host only; flags never are.
abbrev pub keeps_bytes : Endian → PayloadType → Bool
keeps_bytes native PayloadType.flag = false
keeps_bytes little PayloadType.uint_16 = false
keeps_bytes little PayloadType.uint_32 = false
keeps_bytes little PayloadType.int_32 = false
keeps_bytes native t = true

pub written-keeps_bytes :
    (native : Endian) (t : PayloadType) (chunk : List ℕ)
    → keeps_bytes native t ≡ true
    → written native t chunk ≡ ok chunk
written-keeps_bytes little PayloadType.flag chunk h = cc
written-keeps_bytes big PayloadType.flag chunk h = cc
written-keeps_bytes little PayloadType.uint_16 chunk h = cc
written-keeps_bytes little PayloadType.uint_32 chunk h = cc
written-keeps_bytes little PayloadType.int_32 chunk h = cc
written-keeps_bytes big PayloadType.uint_16 chunk h = ap ok (reverse-reverse chunk)
written-keeps_bytes big PayloadType.uint_32 chunk h = ap ok (reverse-reverse chunk)
written-keeps_bytes big PayloadType.int_32 chunk h = ap ok (reverse-reverse chunk)
written-keeps_bytes little _ chunk h = refl
written-keeps_bytes big _ chunk h = refl

-- The types at which the constructor returns after one round.
abbrev pub returns : PayloadType → Bool
returns PayloadType.vendor_specific_field = true
returns PayloadType.byte_array = true
returns PayloadType.string = true
returns _ = false

pub process_element-returns :
    (native : Endian) (t : PayloadType) (o : DhcpOption) (n : ℕ) (rest : List ℕ) (o' : DhcpOption)
    → process_element native t o n rest ≡ ok (true, o')
    → IsRead native t o o' n rest × (returns t ≡ true)
unfolding process_element process_vendor_specific_field process_byte_array process_string
    value_to_network_data
process_element-returns native PayloadType.vendor_specific_field o n rest o' e =
    let (bytes, e1, f1) =
      >>=-eq-ok (read_range n rest) (λ v. ok (push o (RealValue.bytes v)))
        (returned _ o' true true e).0 in
    let (same, fits) = read_range-take n rest bytes e1 in
    (
      record {
        value = RealValue.bytes bytes;
        pushed = ground arith;
        available = fits;
        writes = ap ok same;
      },
      refl,
    )
process_element-returns native PayloadType.string o n rest o' e =
    let (bytes, e1, f1) =
      >>=-eq-ok (read_range n rest) (λ v. ok (push o (RealValue.text v)))
        (returned _ o' true true e).0 in
    let (same, fits) = read_range-take n rest bytes e1 in
    (
      record {
        value = RealValue.text bytes;
        pushed = ground arith;
        available = fits;
        writes = ap ok same;
      },
      refl,
    )
process_element-returns native PayloadType.byte_array o n rest o' e =
    let (bytes, e1, f1) = >>=-eq-ok (read_range n rest) _ (returned _ o' true true e).0 in
    let (same, fits) = read_range-take n rest bytes e1 in
    (
      record {
        value = RealValue.bytes bytes;
        pushed = ground arith;
        available = fits;
        writes = ap ok same;
      },
      refl,
    )
process_element-returns native PayloadType.none o n rest o' e = cc
process_element-returns native PayloadType.ip_address o n rest o' e =
    absurd (true≢false (sym (returned _ o' false true e).1))
process_element-returns native _ o n rest o' e =
    absurd (true≢false (sym (returned _ o' false true e).1))

pub process_element-goes_on :
    (native : Endian) (t : PayloadType) (o : DhcpOption) (n : ℕ) (rest : List ℕ) (o' : DhcpOption)
    → process_element native t o n rest ≡ ok (false, o')
    → returns t ≡ false
unfolding process_element
process_element-goes_on native PayloadType.vendor_specific_field o n rest o' e =
    absurd (true≢false (returned _ o' true false e).1)
process_element-goes_on native PayloadType.byte_array o n rest o' e =
    absurd (true≢false (returned _ o' true false e).1)
process_element-goes_on native PayloadType.string o n rest o' e =
    absurd (true≢false (returned _ o' true false e).1)
process_element-goes_on native _ o n rest o' e = refl

pub values-append :
    (native : Endian) (vs : List RealValue) (v : RealValue) (acc c : List ℕ)
    → values_to_network_data native vs ≡ ok acc
    → value_to_network_data native v ≡ ok c
    → values_to_network_data native (vs ++ (v ∷ [])) ≡ ok (acc ++ c)
unfolding values_to_network_data
values-append native [] v acc c h k =
    rw k (ap ok (append-nil c ∙ ap (λ a. a ++ c) (ok-injective h)))
values-append native (w ∷ vs) v acc c h k =
    let (a, e1, f1) = >>=-eq-ok (value_to_network_data native w) _ h in
    let (more, e2, f2) = >>=-eq-ok (values_to_network_data native vs) _ f1 in
    rw (e1, values-append native vs v more c e2 k)
      (ap ok (sym (append_assoc a more c) ∙ ap (λ t. t ++ c) (ok-injective f2)))
