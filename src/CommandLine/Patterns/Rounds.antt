-- ===== src/CommandLine/Patterns/Rounds.antt =====
-- cli/src/Command.cpp: the words and the variables of a pattern, one after the other.
use klevret.Prelude.{ℕ, ◌≡◌, ◌≢◌, refl, ap, ◌∙◌, Bool, true, false}
use klevret.Prelude.{List, [], ◌∷◌, ◌++◌, All, text, ok}
use klevret.WrapperForParsing.{WrapperForParsing, advance, eot, is_alpha, is_alnum}
use klevret.WrapperForParsing.{read_while}
use klevret.CommandLine.Elements.{CommandElementType, CommandElement, element}
use klevret.CommandLine.Patterns.{parse_variable_element}

module _ (p : ℕ → Bool) where
  pub read_while_stop :
      (ch : ℕ) (rest : List ℕ)
      → p ch ≡ false
      → read_while p ch rest ≡ ([], record { ch = ch; rest = rest })
  unfolding read_while
  read_while_stop ch [] h = rw h refl
  read_while_stop ch (c ∷ cs) h = rw h refl

  read_while_step :
      (c : ℕ) (rest : List ℕ)
      → p c ≡ true
      → p eot ≡ false
      → read_while p c rest ≡ (
        c ∷ (read_while p (advance rest).ch (advance rest).rest).0,
        (read_while p (advance rest).ch (advance rest).rest).1,
      )
  unfolding read_while
  read_while_step c [] h k = rw (h, k) refl
  read_while_step c (d ∷ cs) h k = rw h refl

  -- A word of characters of which the test holds, up to the first of which it does not.
  pub read_while-append :
      (word rest : List ℕ)
      → p eot ≡ false
      → All (λ c. p c ≡ true) word
      → p (advance rest).ch ≡ false
      → read_while p (advance (word ++ rest)).ch (advance (word ++ rest)).rest
        ≡ (word, advance rest)
  read_while-append [] rest k a h = read_while_stop (advance rest).ch (advance rest).rest h
  read_while-append (c ∷ word) rest k (b, a) h =
      read_while_step c (word ++ rest) b k
      ∙ ap (λ (r : List ℕ × WrapperForParsing). (c ∷ r.0, r.1)) (read_while-append word rest k a h)

-- What a pattern says: words and variables.
pub data Item : Type 0 where
  word : List ℕ → Item
  variable : CommandElementType → Item

abbrev pub element_of : Item → CommandElement
element_of (word w) = element CommandElementType.fixed_word w
element_of (variable t) = element t []

-- The name of a variable in a pattern, where it has one.
abbrev pub variable_name : CommandElementType → List ℕ
variable_name CommandElementType.string = text "string"
variable_name CommandElementType.name = text "name"
variable_name CommandElementType.ip_v4_address = text "IPv4Address"
variable_name CommandElementType.ip_v4_subnet_mask = text "IPv4SubnetMask"
variable_name CommandElementType.ip_v6_address = text "IPv6Address"
variable_name CommandElementType.ip_v6_subnet_mask = text "IPv6SubnetMask"
variable_name CommandElementType.none = []
variable_name CommandElementType.fixed_word = []

abbrev pub text_of : Item → List ℕ
text_of (word w) = w
text_of (variable t) = b'<' ∷ (variable_name t ++ (b'>' ∷ []))

-- A word has letters only, at least one; a variable has a name.
abbrev pub IsItem : Item → Type 0
IsItem (word w) = (w ≢ []) × All (λ c. is_alpha c ≡ true) w
IsItem (variable t) = variable_name t ≢ []

variable_name-alnum : (t : CommandElementType) → All (λ c. is_alnum c ≡ true) (variable_name t)
variable_name-alnum CommandElementType.string = (refl, (refl, (refl, (refl, (refl, (refl, tt))))))
variable_name-alnum CommandElementType.name = (refl, (refl, (refl, (refl, tt))))
variable_name-alnum CommandElementType.ip_v4_address =
    (refl, (refl, (refl, (refl, (refl, (refl, (refl, (refl, (refl, (refl, (refl, tt)))))))))))
variable_name-alnum CommandElementType.ip_v4_subnet_mask = (
  refl,
  (
    refl,
    (
      refl,
      (refl, (refl, (refl, (refl, (refl, (refl, (refl, (refl, (refl, (refl, (refl, tt))))))))))),
    ),
  ),
)
variable_name-alnum CommandElementType.ip_v6_address =
    (refl, (refl, (refl, (refl, (refl, (refl, (refl, (refl, (refl, (refl, (refl, tt)))))))))))
variable_name-alnum CommandElementType.ip_v6_subnet_mask = (
  refl,
  (
    refl,
    (
      refl,
      (refl, (refl, (refl, (refl, (refl, (refl, (refl, (refl, (refl, (refl, (refl, tt))))))))))),
    ),
  ),
)
variable_name-alnum CommandElementType.none = tt
variable_name-alnum CommandElementType.fixed_word = tt

-- A variable of a known type is read back.
pub parse_variable_element_known :
    (elements : List CommandElement) (t : CommandElementType) (rest : List ℕ)
    → variable_name t ≢ []
    → parse_variable_element elements (advance (text_of (variable t) ++ rest))
      ≡ ok (elements ++ (element t [] ∷ []), advance rest)
unfolding parse_variable_element
parse_variable_element_known elements CommandElementType.string rest h =
    rw
      (read_while-append is_alnum (variable_name CommandElementType.string) (b'>' ∷ rest) refl
        (variable_name-alnum CommandElementType.string) refl)
      refl
parse_variable_element_known elements CommandElementType.name rest h =
    rw
      (read_while-append is_alnum (variable_name CommandElementType.name) (b'>' ∷ rest) refl
        (variable_name-alnum CommandElementType.name) refl)
      refl
parse_variable_element_known elements CommandElementType.ip_v4_address rest h =
    rw
      (read_while-append is_alnum (variable_name CommandElementType.ip_v4_address) (b'>' ∷ rest)
        refl (variable_name-alnum CommandElementType.ip_v4_address) refl)
      refl
parse_variable_element_known elements CommandElementType.ip_v4_subnet_mask rest h =
    rw
      (read_while-append is_alnum (variable_name CommandElementType.ip_v4_subnet_mask) (b'>' ∷ rest)
        refl (variable_name-alnum CommandElementType.ip_v4_subnet_mask) refl)
      refl
parse_variable_element_known elements CommandElementType.ip_v6_address rest h =
    rw
      (read_while-append is_alnum (variable_name CommandElementType.ip_v6_address) (b'>' ∷ rest)
        refl (variable_name-alnum CommandElementType.ip_v6_address) refl)
      refl
parse_variable_element_known elements CommandElementType.ip_v6_subnet_mask rest h =
    rw
      (read_while-append is_alnum (variable_name CommandElementType.ip_v6_subnet_mask) (b'>' ∷ rest)
        refl (variable_name-alnum CommandElementType.ip_v6_subnet_mask) refl)
      refl
parse_variable_element_known elements CommandElementType.none rest h = absurd (h refl)
parse_variable_element_known elements CommandElementType.fixed_word rest h = absurd (h refl)
