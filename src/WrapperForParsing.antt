-- ===== src/WrapperForParsing.antt =====
-- dhcp/src/WrapperForParsing.cpp and cli/src/WrapperForParsing.cpp: a text, one character at a time.
-- A character is its code. `rest` is `_data` from `pos` on, so `pos == _data.size()` is `rest ≡ []`.
use klevret.Prelude.{ℕ, List, [], ◌∷◌, Bool, leb, ◌==◌, ◌&&◌, ◌||◌, if◌then◌else◌}
use klevret.Prelude.{Result, ok, throw, character_expected}

-- EOT is 3, also where the text itself holds that character.
abbrev pub eot : ℕ
eot = 3

pub record WrapperForParsing : Type 0 where
  pub ch : ℕ
  pub rest : List ℕ

-- `get_next`, from the characters that are left.
abbrev pub advance : List ℕ → WrapperForParsing
advance [] = record { ch = eot; rest = [] }
advance (c ∷ cs) = record { ch = c; rest = cs }

abbrev pub get_next : WrapperForParsing → WrapperForParsing
get_next w = advance w.rest

-- The constructor: it takes the first character.
abbrev pub wrap : List ℕ → WrapperForParsing
wrap str = advance str

abbrev pub is_end : WrapperForParsing → Bool
is_end w = w.ch == eot

-- `ch >= '0' && ch <= '9'`
abbrev pub is_digit : ℕ → Bool
is_digit c = leb b'0' c && leb c b'9'

-- `isalpha`, `isalnum` and `isspace` of the C locale.
abbrev pub is_alpha : ℕ → Bool
is_alpha c = leb b'A' c && leb c b'Z' || leb b'a' c && leb c b'z'

abbrev pub is_alnum : ℕ → Bool
is_alnum c = is_alpha c || is_digit c

abbrev pub is_space : ℕ → Bool
is_space c = leb 9 c && leb c 13 || c == b' '

-- `while (p(ch)) { word += ch; get_next(); }` for a test that does not hold of EOT: the word, and what
-- is left.
unfoldable pub read_while : (ℕ → Bool) → ℕ → List ℕ → List ℕ × WrapperForParsing
read_while p ch [] =
    if p ch then (ch ∷ [], record { ch = eot; rest = [] }) else ([], record { ch = ch; rest = [] })
read_while p ch (c ∷ cs) =
    let (word, w) = read_while p c cs in
    if p ch then (ch ∷ word, w) else ([], record { ch = ch; rest = c ∷ cs })

abbrev pub skip_whitespaces : WrapperForParsing → WrapperForParsing
skip_whitespaces w = (read_while is_space w.ch w.rest).1

abbrev pub check : ℕ → WrapperForParsing → Result WrapperForParsing
check c w = if w.ch == c then ok (get_next w) else throw character_expected
