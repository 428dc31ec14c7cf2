-- ===== src/CommandLine/Addresses.antt =====
-- cli/src/ip_addresses.cpp: the class IPv4Address of the command line. Its `_data` is that of the class
-- of dhcp/src/IpAddress.hpp, four bytes, and so is the record.
use klevret.Prelude.{ℕ, zero, suc, ◌+◌, ◌-◌, ◌*◌, ◌==◌, ltb, if◌then◌else◌, List, [], ◌∷◌, ◌++◌}
use klevret.Prelude.{Result, ok, undefined, ◌>>=◌, ◌>>◌, throw_if, octet_above_255}
use klevret.WrapperForParsing.{WrapperForParsing, eot, wrap, check, is_digit}
use klevret.IpAddress.{Ipv4Address, with_data, decimal}

-- `n * 10 + (ch - '0')` on an int.
abbrev pub append_digit : ℕ → ℕ → Result ℕ
append_digit n ch = let m = n * 10 + (ch - b'0') in if ltb 2147483647 m then undefined else ok m

-- `while (isdigit(ch)) { n = n * 10 + (ch - '0'); get_next(); }`
unfoldable pub digits_loop : ℕ → ℕ → List ℕ → Result (ℕ × WrapperForParsing)
digits_loop n ch [] =
    if is_digit ch
    then (do m ← append_digit n ch; ok (m, record { ch = eot; rest = [] }))
    else ok (n, record { ch = ch; rest = [] })
digits_loop n ch (c ∷ cs) =
    if is_digit ch
    then (do m ← append_digit n ch; digits_loop m c cs)
    else ok (n, record { ch = ch; rest = c ∷ cs })

unfoldable pub parse_octet : WrapperForParsing → Result (ℕ × WrapperForParsing)
parse_octet w = do
  (octet, w') ← digits_loop 0 w.ch w.rest
  throw_if (ltb 255 octet) octet_above_255
  ok (octet, w')

-- The loop of the constructor; `left` is `4 - i`, so `i != 3` is `left != 1`.
unfoldable pub read_octets : ℕ → WrapperForParsing → Result (List ℕ)
read_octets zero w = ok []
read_octets (suc left) w = do
  (octet, w') ← parse_octet w
  w'' ← (if left == 0 then ok w' else check b'.' w')
  octets ← read_octets left w''
  ok (octet ∷ octets)

-- `IPv4Address(const std::string& ip)`
unfoldable pub of_string : List ℕ → Result Ipv4Address
of_string ip = do octets ← read_octets 4 (wrap ip); ok (with_data octets)

unfoldable pub to_string : Ipv4Address → List ℕ
to_string a =
    decimal a.octet_0
    ++ (b'.' ∷ (decimal a.octet_1 ++ (b'.' ∷ (decimal a.octet_2 ++ (b'.' ∷ decimal a.octet_3)))))
