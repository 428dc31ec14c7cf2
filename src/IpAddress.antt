-- ===== src/IpAddress.antt =====
-- dhcp/src/IpAddress.cpp and IpAddress.hpp, the class IPv4Address.
-- `_data` is four fields, each a byte where `IsValid` says so. A pair of iterators is the vector
-- from `begin` on and the distance to `end`; a read past the vector is undefined.
pub mod Laws
pub mod Text
pub mod Mask
use klevret.Prelude.{ℕ, zero, suc, ◌+◌, ◌-◌, ◌*◌, ◌/◌, ◌%◌, ◌^◌, ◌<◌, ◌==◌, ltb, not, ◌&&◌}
use klevret.Prelude.{
  if◌then◌else◌, Bool, List, [], ◌∷◌, ◌++◌, Result, ok, throw, undefined, running,
}
use klevret.Prelude.{Error, too_few_octets, octet_above_255, dot_expected, unknown_symbol, throw_if}
use klevret.Prelude.{◌>>=◌, ◌>>◌}
use klevret.Endians.{Endian, network_array_to_host_endian, host_to_network_endian_array, IsByte}
use klevret.WrapperForParsing.{WrapperForParsing, eot, get_next, wrap, is_digit}

pub record Ipv4Address : Type 0 where
  pub octet_0 : ℕ
  pub octet_1 : ℕ
  pub octet_2 : ℕ
  pub octet_3 : ℕ

pub record IsValid (a : Ipv4Address) : Type 0 where
  pub byte_0 : IsByte a.octet_0
  pub byte_1 : IsByte a.octet_1
  pub byte_2 : IsByte a.octet_2
  pub byte_3 : IsByte a.octet_3

-- `_data` as a sequence, and an address with the given `_data`, which always has four bytes.
abbrev pub data_of : Ipv4Address → List ℕ
data_of a = a.octet_0 ∷ a.octet_1 ∷ a.octet_2 ∷ a.octet_3 ∷ []

abbrev pub with_data : List ℕ → Ipv4Address
with_data (a ∷ b ∷ c ∷ d ∷ _) = record { octet_0 = a; octet_1 = b; octet_2 = c; octet_3 = d }
with_data _ = record { octet_0 = 0; octet_1 = 0; octet_2 = 0; octet_3 = 0 }

-- The value of a call that does not throw at the template arguments it is made with.
abbrev pub value_or {ℓ} : {A : Type ℓ} → A → Result A → A
value_or d (ok v) = v
value_or d (throw e) = d
value_or d undefined = d
value_or d running = d

-- `while (iter != end && i < length) { data.at(i) = *iter; ++iter; ++i; } if (i < length) throw`,
-- with `room` for `length - i` and `n` for `end - iter`.
unfoldable pub read_bytes : Error → ℕ → ℕ → List ℕ → Result (List ℕ)
read_bytes e zero n bytes = ok []
read_bytes e (suc room) zero bytes = throw e
read_bytes e (suc room) (suc n) [] = undefined
read_bytes e (suc room) (suc n) (b ∷ bytes) = do more ← read_bytes e room n bytes; ok (b ∷ more)

unfoldable pub from_big_endian_bytes : ℕ → List ℕ → Result Ipv4Address
from_big_endian_bytes n bytes = do
  octets ← read_bytes too_few_octets 4 n bytes
  ok (with_data octets)

-- `octet` is a size_t. The last round that reads a digit leaves `ch` at EOT, which is none.
unfoldable pub octet_loop : ℕ → ℕ → List ℕ → ℕ × WrapperForParsing
octet_loop octet ch [] =
    if is_digit ch
    then ((octet * 10 + (ch - b'0')) % 2 ^ 64, record { ch = eot; rest = [] })
    else (octet, record { ch = ch; rest = [] })
octet_loop octet ch (c ∷ cs) =
    if is_digit ch
    then octet_loop ((octet * 10 + (ch - b'0')) % 2 ^ 64) c cs
    else (octet, record { ch = ch; rest = c ∷ cs })

unfoldable pub parse_octet : WrapperForParsing → Result (ℕ × WrapperForParsing)
parse_octet w =
    let (octet, w') = octet_loop 0 w.ch w.rest in
    do throw_if (ltb 255 octet) octet_above_255; ok (octet, w')

-- The loop of `IPv4Address(std::string)`; `left` is `4 - i`, so `i < 3` is `1 < left`.
unfoldable pub parse_octets : ℕ → WrapperForParsing → Result (List ℕ × WrapperForParsing)
parse_octets zero w = ok ([], w)
parse_octets (suc left) w = do
  (octet, w') ← parse_octet w
  throw_if (ltb 0 left && not (w'.ch == b'.')) dot_expected
  (octets, w'') ← parse_octets left (get_next w')
  ok (octet ∷ octets, w'')

-- `IPv4Address(std::string ip_addr)`
unfoldable pub of_string : List ℕ → Result Ipv4Address
unfolding parse_octets
of_string ip_addr = do
  (octets, w) ← parse_octets 4 (wrap ip_addr)
  throw_if (not (w.ch == eot)) unknown_symbol
  ok (with_data octets)

-- `std::to_string` of a byte
unfoldable pub decimal : ℕ → List ℕ
decimal n =
    if ltb n 10
    then (b'0' + n) ∷ []
    else if ltb n 100
    then (b'0' + n / 10) ∷ (b'0' + n % 10) ∷ []
    else (b'0' + n / 100) ∷ (b'0' + n / 10 % 10) ∷ (b'0' + n % 10) ∷ []

unfoldable pub to_string : Ipv4Address → List ℕ
to_string a =
    decimal a.octet_0
    ++ (b'.' ∷ (decimal a.octet_1 ++ (b'.' ∷ (decimal a.octet_2 ++ (b'.' ∷ decimal a.octet_3)))))

abbrev pub to_network_data : Ipv4Address → List ℕ
to_network_data a = data_of a

-- `operator==`: the arrays are equal.
abbrev pub eq_ip : Ipv4Address → Ipv4Address → Bool
eq_ip a b =
    a.octet_0 == b.octet_0
    && (a.octet_1 == b.octet_1 && (a.octet_2 == b.octet_2 && a.octet_3 == b.octet_3))

module _ (native : Endian) where
  -- `IPv4Address(uint32_t ip_addr)`
  unfoldable pub of_uint32_t : ℕ → Ipv4Address
  of_uint32_t ip_addr = with_data (value_or [] (host_to_network_endian_array native 4 4 ip_addr))

  unfoldable pub to_uint32_t : Ipv4Address → ℕ
  to_uint32_t a = value_or 0 (network_array_to_host_endian native 4 (data_of a))

  -- `_increment` and `_decrement` on a uint32_t
  unfoldable pub increment : Ipv4Address → Ipv4Address
  increment a = of_uint32_t ((to_uint32_t a + 1) % 2 ^ 32)

  unfoldable pub decrement : Ipv4Address → Ipv4Address
  decrement a = of_uint32_t ((to_uint32_t a + 2 ^ 32 - 1) % 2 ^ 32)

  -- `operator++(int)` and `operator--(int)`: the old value, and the object after the call.
  abbrev pub post_increment : Ipv4Address → Ipv4Address × Ipv4Address
  post_increment a = (a, increment a)

  abbrev pub post_decrement : Ipv4Address → Ipv4Address × Ipv4Address
  post_decrement a = (a, decrement a)

  -- `operator<`
  unfoldable pub less_ip : Ipv4Address → Ipv4Address → Bool
  less_ip lhs rhs = ltb (to_uint32_t lhs) (to_uint32_t rhs)
