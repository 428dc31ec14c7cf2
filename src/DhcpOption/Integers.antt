-- ===== src/DhcpOption/Integers.antt =====
-- dhcp/src/DhcpOption.cpp: the rounds of the constructor's loop that read integers.
use klevret.Prelude.{ℕ, ◌^◌, ◌≤◌, ◌<◌, ◌≡◌, sym, ap, ◌∙◌, arith}
use klevret.Prelude.{List, reverse, length, take, All, ok}
use klevret.Prelude.{◌>>=◌, ◌>>◌, throw_if, >>=-eq-ok, wrap_ℤ, length-reverse}
use klevret.Endians.{Endian, IsByte, to_le, from_le, in_memory}
use klevret.Endians.{network_range_to_host_endian}
use klevret.Endians.Laws.{from_be, from_be-lt, to_le-from_le, from_le-reverse, range-eq-array}
use klevret.Endians.Laws.{network_array_to_host_endian-from_be}
use klevret.OptionDescription.{PayloadType, is_correct_uint, is_correct_int}
use klevret.DhcpOption.{DhcpOption, RealValue, push, read_range}
use klevret.DhcpOption.{signed32, push_uint, process_uint16, process_uint32, process_int32}
use klevret.Prelude.{All-take, All-reverse, length-take_of_le, subst, not, constraint_violated}
use klevret.DhcpOption.Encode.{value_to_network_data}
use klevret.DhcpOption.Elements.{IsRead, read_range-take}

-- An integer read in network order from `size` bytes has them as its bytes, highest first.
word-read :
    (native : Endian) (size : ℕ) (rest range : List ℕ) (value : ℕ)
    → All IsByte rest
    → read_range size rest ≡ ok range
    → network_range_to_host_endian native size range ≡ ok value
    → (to_le size value ≡ reverse (take size rest)) × (size ≤ length rest) × (value < 256 ^ size)
word-read native size rest range value h e f =
    let (same, fits) = read_range-take size rest range e in
    let chunk = take size rest in
    let bytes : All IsByte chunk = All-take IsByte size rest h in
    let len : length chunk ≡ size = length-take_of_le size rest fits in
    let got : network_range_to_host_endian native size chunk ≡ ok (from_be chunk) =
      subst (λ k. network_range_to_host_endian native k chunk ≡ ok (from_be chunk)) len
        (range-eq-array native (length chunk) chunk
          ∙ network_array_to_host_endian-from_be native chunk bytes) in
    let value_is : value ≡ from_be chunk = cc in
    let value_le : value ≡ from_le (reverse chunk) = value_is ∙ sym (from_le-reverse chunk) in
    let rlen : length (reverse chunk) ≡ size = length-reverse chunk ∙ len in
    let rbytes : All IsByte (reverse chunk) = All-reverse IsByte chunk bytes in
    (
      ap (to_le size) value_le
          ∙ subst (λ k. to_le k (from_le (reverse chunk)) ≡ reverse chunk) rlen
              (to_le-from_le (reverse chunk) rbytes),
      fits,
      rw value_is (subst (λ k. from_be chunk < 256 ^ k) len (from_be-lt chunk bytes)),
    )

pub push_uint-ok :
    (o o' : DhcpOption) (value : ℕ) (v : RealValue) → push_uint o value v ≡ ok o' → o' ≡ push o v
push_uint-ok o o' value v h =
    let (correct, e, f) =
      >>=-eq-ok (is_correct_uint o.description.payload_description value)
        (λ correct. throw_if (not correct) constraint_violated >> ok (push o v)) h in
    ground arith

wrap-signed32 : (w : ℕ) → w < 2 ^ 32 → wrap_ℤ (2 ^ 32) (signed32 w) ≡ w
wrap-signed32 w h = ground arith

-- The rounds of the integer types.
pub uint16-IsRead :
    (native : Endian) (o o' : DhcpOption) (rest : List ℕ)
    → All IsByte rest
    → process_uint16 o native rest ≡ ok o'
    → IsRead native PayloadType.uint_16 o o' 2 rest
unfolding process_uint16 value_to_network_data
uint16-IsRead native o o' rest h e =
    let (range, e1, f1) =
      >>=-eq-ok (read_range 2 rest)
        (λ r. network_range_to_host_endian native 2 r >>= λ v. push_uint o v (RealValue.uint16 v))
        e in
    let (value, e2, f2) =
      >>=-eq-ok (network_range_to_host_endian native 2 range)
        (λ v. push_uint o v (RealValue.uint16 v)) f1 in
    let (w, fits, lt) = word-read native 2 rest range value h e1 e2 in
    record {
      value = RealValue.uint16 value;
      pushed = push_uint-ok o o' value _ f2;
      available = fits;
      writes = ap (λ k. ok (in_memory native k)) w;
    }

pub uint32-IsRead :
    (native : Endian) (o o' : DhcpOption) (rest : List ℕ)
    → All IsByte rest
    → process_uint32 o native rest ≡ ok o'
    → IsRead native PayloadType.uint_32 o o' 4 rest
unfolding process_uint32 value_to_network_data
uint32-IsRead native o o' rest h e =
    let (range, e1, f1) =
      >>=-eq-ok (read_range 4 rest)
        (λ r. network_range_to_host_endian native 4 r >>= λ v. push_uint o v (RealValue.uint32 v))
        e in
    let (value, e2, f2) =
      >>=-eq-ok (network_range_to_host_endian native 4 range)
        (λ v. push_uint o v (RealValue.uint32 v)) f1 in
    let (w, fits, lt) = word-read native 4 rest range value h e1 e2 in
    record {
      value = RealValue.uint32 value;
      pushed = push_uint-ok o o' value _ f2;
      available = fits;
      writes = ap (λ k. ok (in_memory native k)) w;
    }

pub int32-IsRead :
    (native : Endian) (o o' : DhcpOption) (rest : List ℕ)
    → All IsByte rest
    → process_int32 o native rest ≡ ok o'
    → IsRead native PayloadType.int_32 o o' 4 rest
unfolding process_int32 value_to_network_data
int32-IsRead native o o' rest h e =
    let check = λ (v : ℕ). is_correct_int o.description.payload_description (signed32 v) >>= λ c.
    throw_if (not c) constraint_violated >> ok (push o (RealValue.int32 (signed32 v))) in
    let (range, e1, f1) =
      >>=-eq-ok (read_range 4 rest) (λ r. network_range_to_host_endian native 4 r >>= check) e in
    let (value, e2, f2) = >>=-eq-ok (network_range_to_host_endian native 4 range) check f1 in
    let (c, e3, f3) =
      >>=-eq-ok (is_correct_int o.description.payload_description (signed32 value))
        (λ c.
          throw_if (not c) constraint_violated >> ok (push o (RealValue.int32 (signed32 value))))
        f2 in
    let (w, fits, lt) = word-read native 4 rest range value h e1 e2 in
    record {
      value = RealValue.int32 (signed32 value);
      pushed = ground arith;
      available = fits;
      writes =
          ap (λ k. ok (in_memory native k)) (ap (to_le 4) (wrap-signed32 value (omega arith)) ∙ w);
    }
