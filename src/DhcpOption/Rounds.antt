-- ===== src/DhcpOption/Rounds.antt =====
-- dhcp/src/DhcpOption.cpp: every round of the constructor's loop, against the bytes that it reads.
use klevret.Prelude.{ℕ, ◌≡◌, refl, ap, ◌∙◌, arith, Bool, true}
use klevret.Prelude.{false, List, [], ◌∷◌, ◌++◌, drop, All, Result, ok}
use klevret.Prelude.{◌>>=◌, >>=-eq-ok}
use klevret.Endians.{Endian, IsByte}
use klevret.IpAddress
use klevret.IpAddress.{Ipv4Address, read_bytes}
use klevret.IpAddress.Mask
use klevret.IpAddress.Mask.{Ipv4SubnetMask}
use klevret.OptionDescription.{PayloadType}
use klevret.OptionDescription.{get_one_element_payload_length_in_bytes}
use klevret.DhcpOption.{DhcpOption, RealValue, push, element_size, process_element}
use klevret.Prelude.{◌≢◌, length-drop, take_add, ◌==◌, ap₂}
use klevret.DhcpOption.{process_ip_address}
use klevret.DhcpOption.{process_uint8, process_uint_enum, process_flag, process_subnet_mask}
use klevret.DhcpOption.{process_ip_address_with_mask, process_two_ip_addresses}
use klevret.Prelude.{not}
use klevret.DhcpOption.Encode.{value_to_network_data}
use klevret.DhcpOption.Elements.{IsRead, address-read, mask-read}
use klevret.DhcpOption.Integers.{push_uint-ok, uint16-IsRead, uint32-IsRead, int32-IsRead}

module _ (native : Endian) (o o' : DhcpOption) where
  ip_address-IsRead :
      (rest : List ℕ)
      → process_ip_address o rest ≡ ok o'
      → IsRead native PayloadType.ip_address o o' 4 rest
  unfolding process_ip_address value_to_network_data
  ip_address-IsRead rest e =
      let (a, e1, f1) =
        >>=-eq-ok (IpAddress.from_big_endian_bytes 4 rest) (λ a. ok (push o (RealValue.address a)))
          e in
      let (same, fits) = address-read rest a e1 in
      record {
        value = RealValue.address a;
        pushed = ground arith;
        available = fits;
        writes = ap ok same;
      }

  subnet_mask-IsRead :
      (rest : List ℕ)
      → process_subnet_mask o rest ≡ ok o'
      → IsRead native PayloadType.subnet_mask o o' 4 rest
  unfolding process_subnet_mask value_to_network_data
  subnet_mask-IsRead rest e =
      let (a, e1, f1) =
        >>=-eq-ok (Mask.from_big_endian_bytes 4 rest) (λ a. ok (push o (RealValue.mask a))) e in
      let (same, fits) = mask-read rest a e1 in
      record {
        value = RealValue.mask a;
        pushed = ground arith;
        available = fits;
        writes = ap ok same;
      }

  ip_address_with_mask-IsRead :
      (rest : List ℕ)
      → process_ip_address_with_mask o rest ≡ ok o'
      → IsRead native PayloadType.ip_address_with_subnet_mask o o' 8 rest
  unfolding process_ip_address_with_mask value_to_network_data
  ip_address_with_mask-IsRead rest e =
      let second = λ (a : Ipv4Address). Mask.from_big_endian_bytes 4 (drop 4 rest) >>= λ m.
      ok (push o (RealValue.address_with_mask a m)) in
      let (a, e1, f1) = >>=-eq-ok (IpAddress.from_big_endian_bytes 4 rest) second e in
      let (m, e2, f2) =
        >>=-eq-ok (Mask.from_big_endian_bytes 4 (drop 4 rest))
          (λ m. ok (push o (RealValue.address_with_mask a m))) f1 in
      let (same, fits) = address-read rest a e1 in
      let (same', fits') = mask-read (drop 4 rest) m e2 in
      record {
        value = RealValue.address_with_mask a m;
        pushed = ground arith;
        available = omega (arith, length-drop 4 rest);
        writes = ap ok (ap₂ ◌++◌ same same' ∙ take_add 4 4 8 rest refl);
      }

  two_ip_addresses-IsRead :
      (rest : List ℕ)
      → process_two_ip_addresses o rest ≡ ok o'
      → IsRead native PayloadType.two_ip_addresses o o' 8 rest
  unfolding process_two_ip_addresses value_to_network_data
  two_ip_addresses-IsRead rest e =
      let second = λ (a : Ipv4Address). IpAddress.from_big_endian_bytes 4 (drop 4 rest) >>= λ b.
      ok (push o (RealValue.two_addresses a b)) in
      let (a, e1, f1) = >>=-eq-ok (IpAddress.from_big_endian_bytes 4 rest) second e in
      let (b, e2, f2) =
        >>=-eq-ok (IpAddress.from_big_endian_bytes 4 (drop 4 rest))
          (λ b. ok (push o (RealValue.two_addresses a b))) f1 in
      let (same, fits) = address-read rest a e1 in
      let (same', fits') = address-read (drop 4 rest) b e2 in
      record {
        value = RealValue.two_addresses a b;
        pushed = ground arith;
        available = omega (arith, length-drop 4 rest);
        writes = ap ok (ap₂ ◌++◌ same same' ∙ take_add 4 4 8 rest refl);
      }

  uint8-IsRead :
      (rest : List ℕ) → process_uint8 o rest ≡ ok o' → IsRead native PayloadType.uint_8 o o' 1 rest
  unfolding process_uint8 value_to_network_data
  uint8-IsRead [] e = cc
  uint8-IsRead (b ∷ rest) e = record {
    value = RealValue.uint8 b;
    pushed = push_uint-ok o o' b _ e;
    available = omega arith;
    writes = refl;
  }

  uint_enum-IsRead :
      (rest : List ℕ)
      → process_uint_enum o rest ≡ ok o'
      → IsRead native PayloadType.uint_enum o o' 1 rest
  unfolding process_uint_enum value_to_network_data
  uint_enum-IsRead [] e = cc
  uint_enum-IsRead (b ∷ rest) e = record {
    value = RealValue.uint8 b;
    pushed = push_uint-ok o o' b _ e;
    available = omega arith;
    writes = refl;
  }

  flag-IsRead :
      (rest : List ℕ) → process_flag o rest ≡ ok o' → IsRead native PayloadType.flag o o' 1 rest
  unfolding process_flag value_to_network_data
  flag-IsRead [] e = cc
  flag-IsRead (b ∷ rest) e = record {
    value = RealValue.boolean (not (b == 0));
    pushed = ground arith;
    available = omega arith;
    writes = refl;
  }

pub true≢false : ◌≢◌ {A = Bool} true false
true≢false h = cc

-- The result of a round's function, out of the round.
pub returned :
    (m : Result DhcpOption) (o' : DhcpOption) (r s : Bool)
    → ◌>>=◌ {B = Bool × DhcpOption} m (λ p. ok (r, p)) ≡ ok (s, o')
    → (m ≡ ok o') × (r ≡ s)
returned m o' r s h =
    let (p, e, f) = >>=-eq-ok {B = Bool × DhcpOption} m (λ p. ok (r, p)) h in
    (ground arith, ground arith)

-- A round after which the constructor goes on has read one complete element.
pub process_element-IsRead :
    (native : Endian) (t : PayloadType) (o : DhcpOption) (n : ℕ) (rest : List ℕ) (o' : DhcpOption)
    → All IsByte rest
    → process_element native t o n rest ≡ ok (false, o')
    → IsRead native t o o' (element_size t) rest
unfolding process_element get_one_element_payload_length_in_bytes
process_element-IsRead native PayloadType.none o n rest o' h e = cc
process_element-IsRead native PayloadType.ip_address o n rest o' h e =
    ip_address-IsRead native o o' rest (returned _ o' false false e).0
process_element-IsRead native PayloadType.subnet_mask o n rest o' h e =
    subnet_mask-IsRead native o o' rest (returned _ o' false false e).0
process_element-IsRead native PayloadType.ip_address_with_subnet_mask o n rest o' h e =
    ip_address_with_mask-IsRead native o o' rest (returned _ o' false false e).0
process_element-IsRead native PayloadType.two_ip_addresses o n rest o' h e =
    two_ip_addresses-IsRead native o o' rest (returned _ o' false false e).0
process_element-IsRead native PayloadType.uint_8 o n rest o' h e =
    uint8-IsRead native o o' rest (returned _ o' false false e).0
process_element-IsRead native PayloadType.uint_16 o n rest o' h e =
    uint16-IsRead native o o' rest h (returned _ o' false false e).0
process_element-IsRead native PayloadType.uint_32 o n rest o' h e =
    uint32-IsRead native o o' rest h (returned _ o' false false e).0
process_element-IsRead native PayloadType.int_32 o n rest o' h e =
    int32-IsRead native o o' rest h (returned _ o' false false e).0
process_element-IsRead native PayloadType.flag o n rest o' h e =
    flag-IsRead native o o' rest (returned _ o' false false e).0
process_element-IsRead native PayloadType.uint_enum o n rest o' h e =
    uint_enum-IsRead native o o' rest (returned _ o' false false e).0
process_element-IsRead native PayloadType.vendor_specific_field o n rest o' h e =
    absurd (true≢false (returned _ o' true false e).1)
process_element-IsRead native PayloadType.byte_array o n rest o' h e =
    absurd (true≢false (returned _ o' true false e).1)
process_element-IsRead native PayloadType.string o n rest o' h e =
    absurd (true≢false (returned _ o' true false e).1)
