-- ===== src/Json.antt =====
-- The property trees of Boost and their JSON texts, as an interface: the code calls them, and their
-- source is not in the repository. The keys are those of one level, which have no dot.
use klevret.Prelude.{
  ℕ, ◌≡◌, Bool, true, false, List, [], ◌∷◌, Option, some, none, eq_text, Result, ok,
}
use klevret.Prelude.{leb, ◌==◌, not, ◌&&◌}

abbrev pub every : (ℕ → Bool) → List ℕ → Bool
every p [] = true
every p (c ∷ s) = p c && every p s

-- A character that stands for itself in a key.
abbrev pub is_plain : ℕ → Bool
is_plain c = leb 32 c && (leb c 126 && not (c == b'.'))

-- A character that a JSON text keeps.
abbrev pub is_ascii : ℕ → Bool
is_ascii c = leb 32 c && leb c 126

-- A key is not empty: at the empty path Boost has the tree itself.
abbrev pub is_key : List ℕ → Bool
is_key [] = false
is_key (c ∷ s) = is_plain c && every is_plain s

abbrev pub IsKey : List ℕ → Type 0
IsKey k = is_key k ≡ true

abbrev pub IsAscii : List ℕ → Type 0
IsAscii s = every is_ascii s ≡ true

pub record Json : Type 1 where
  pub Ptree : Type 0
  pub empty : Ptree
  -- `put(key, text)`, and the text at a key, if there is one.
  pub put : List ℕ → List ℕ → Ptree → Ptree
  pub get_optional : List ℕ → Ptree → Option (List ℕ)
  -- What a Boolean is written as, and read from.
  pub of_bool : Bool → List ℕ
  pub to_bool : List ℕ → Option Bool
  pub write_json : Ptree → List ℕ
  pub read_json : List ℕ → Result Ptree
  pub trim : List ℕ → List ℕ
  -- The trees that are objects of ASCII texts.
  pub IsObject : Ptree → Type 0
  pub get-empty : (k : List ℕ) → IsKey k → get_optional k empty ≡ none
  pub get-put : (k v : List ℕ) (t : Ptree) → IsKey k → get_optional k (put k v t) ≡ some v
  pub get-put_other :
      (k j v : List ℕ) (t : Ptree)
      → IsKey k
      → IsKey j
      → eq_text k j ≡ false
      → get_optional j (put k v t) ≡ get_optional j t
  pub to_bool-of_bool : (b : Bool) → to_bool (of_bool b) ≡ some b
  pub IsAscii-of_bool : (b : Bool) → IsAscii (of_bool b)
  pub IsObject-put_empty : (k v : List ℕ) → IsKey k → IsAscii v → IsObject (put k v empty)
  pub IsObject-put :
      (k v : List ℕ) (t : Ptree) → IsKey k → IsAscii v → IsObject t → IsObject (put k v t)
  pub read_json-write_json : (t : Ptree) → IsObject t → read_json (trim (write_json t)) ≡ ok t
  pub trim-trim : (s : List ℕ) → trim (trim s) ≡ trim s
