-- ===== src/DhcpOption/Elements.antt =====
-- dhcp/src/DhcpOption.cpp: one round of the constructor's loop, against the bytes that it reads.
use klevret.Prelude.{ℕ, zero, suc, ◌≤◌, ◌≡◌, arith}
use klevret.Prelude.{List, [], ◌∷◌, reverse, length, take, Result, ok, undefined}
use klevret.Prelude.{>>=-eq-ok}
use klevret.Endians.{Endian, in_memory}
use klevret.IpAddress
use klevret.IpAddress.{Ipv4Address, read_bytes}
use klevret.IpAddress.Mask
use klevret.IpAddress.Mask.{Ipv4SubnetMask}
use klevret.OptionDescription.{PayloadType}
use klevret.DhcpOption.{DhcpOption, RealValue, push, read_range}
use klevret.DhcpOption.Encode.{value_to_network_data}

-- The bytes that are written for a value that was read from `chunk`.
abbrev pub written : Endian → PayloadType → List ℕ → Result (List ℕ)
written native PayloadType.uint_16 chunk = ok (in_memory native (reverse chunk))
written native PayloadType.uint_32 chunk = ok (in_memory native (reverse chunk))
written native PayloadType.int_32 chunk = ok (in_memory native (reverse chunk))
written native PayloadType.flag chunk = undefined
written native _ chunk = ok chunk

-- A value read from `chunk`, which is complete.
pub record IsRead (native : Endian) (t : PayloadType) (o o' : DhcpOption) (size : ℕ) (rest : List ℕ)
    : Type 0 where
  pub value : RealValue
  pub pushed : o' ≡ push o value
  pub available : size ≤ length rest
  pub writes : value_to_network_data native value ≡ written native t (take size rest)

pub read_range-take :
    (n : ℕ) (rest r : List ℕ) → read_range n rest ≡ ok r → (r ≡ take n rest) × (n ≤ length rest)
unfolding read_range
read_range-take zero rest r h = (ground arith, omega arith)
read_range-take (suc n) [] r h = cc
read_range-take (suc n) (b ∷ rest) r h =
    let (more, e, f) = >>=-eq-ok (read_range n rest) (λ more. ok (b ∷ more)) h in
    let (same, fits) = read_range-take n rest more e in (ground arith, omega arith)

pub address-read :
    (rest : List ℕ) (a : Ipv4Address)
    → IpAddress.from_big_endian_bytes 4 rest ≡ ok a
    → (IpAddress.data_of a ≡ take 4 rest) × (4 ≤ length rest)
unfolding IpAddress.from_big_endian_bytes read_bytes
address-read [] a h = cc
address-read (b ∷ []) a h = cc
address-read (b ∷ c ∷ []) a h = cc
address-read (b ∷ c ∷ d ∷ []) a h = cc
address-read (b ∷ c ∷ d ∷ e ∷ rest) a h = (ground arith, omega arith)

pub mask-read :
    (rest : List ℕ) (m : Ipv4SubnetMask)
    → Mask.from_big_endian_bytes 4 rest ≡ ok m
    → (Mask.data_of m ≡ take 4 rest) × (4 ≤ length rest)
unfolding Mask.from_big_endian_bytes read_bytes
mask-read [] m h = cc
mask-read (b ∷ []) m h = cc
mask-read (b ∷ c ∷ []) m h = cc
mask-read (b ∷ c ∷ d ∷ []) m h = cc
mask-read (b ∷ c ∷ d ∷ e ∷ rest) m h = (ground arith, omega arith)
