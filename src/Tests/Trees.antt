-- ===== src/Tests/Trees.antt =====
-- The interface of Json.antt filled by association lists, whose texts are the keys and the values with
-- an end behind each.
use klevret.Prelude.{
  ℕ, zero, suc, ◌≡◌, refl, sym, ap, ◌∙◌, Bool, true, false, Bool-cases, inl, inr, List, [], ◌∷◌,
  ◌++◌,
}
use klevret.Prelude.{
  append_assoc, append-nil, text, eq_text, eq_text_refl, eq_of_eq_text, Option, some, none, ok,
}
use klevret.Prelude.{if◌then◌else◌}
use klevret.Json.{Json, IsAscii}

abbrev pub Tree : Type 0
Tree = List (List ℕ × List ℕ)

abbrev pub lookup_text : List ℕ → Tree → Option (List ℕ)
lookup_text k [] = none
lookup_text k ((j, v) ∷ t) = if eq_text j k then some v else lookup_text k t

abbrev pub put_text : List ℕ → List ℕ → Tree → Tree
put_text k v [] = (k, v) ∷ []
put_text k v ((j, w) ∷ t) = if eq_text j k then (k, v) ∷ t else (j, w) ∷ put_text k v t

pub lookup_text-put_text : (k v : List ℕ) (t : Tree) → lookup_text k (put_text k v t) ≡ some v
lookup_text-put_text k v [] = rw (eq_text_refl k) refl
lookup_text-put_text k v ((j, w) ∷ t) = elim (Bool-cases (eq_text j k)) [
  | inl e ↦ rw (e, eq_text_refl k) refl
  | inr e ↦ rw (e, e, lookup_text-put_text k v t) refl
]

pub lookup_text-put_other :
    (k j v : List ℕ) (t : Tree)
    → eq_text k j ≡ false
    → lookup_text j (put_text k v t) ≡ lookup_text j t
lookup_text-put_other k j v [] h = rw h refl
lookup_text-put_other k j v ((i, w) ∷ t) h = elim (Bool-cases (eq_text i k)) [
  | inl e ↦ rw (eq_of_eq_text i k e, eq_text_refl k, h) refl
  | inr e ↦ elim (Bool-cases (eq_text i j)) [
    | inl f ↦ rw (e, f) refl
    | inr f ↦ rw (e, f, lookup_text-put_other k j v t h) refl
  ]
]

abbrev pub ended : List ℕ → List ℕ → List ℕ
ended [] rest = 0 ∷ rest
ended (c ∷ s) rest = suc c ∷ ended s rest

abbrev pub write : Tree → List ℕ
write [] = []
write ((k, v) ∷ t) = ended k (ended v (write t))

pub data Reading : Type 0 where
  in_key : List ℕ → Reading
  in_value : List ℕ → List ℕ → Reading

abbrev pub read : Reading → List ℕ → Tree
read (in_key k) [] = []
read (in_key k) (zero ∷ s) = read (in_value k []) s
read (in_key k) (suc c ∷ s) = read (in_key (k ++ (c ∷ []))) s
read (in_value k v) [] = []
read (in_value k v) (zero ∷ s) = (k, v) ∷ read (in_key []) s
read (in_value k v) (suc c ∷ s) = read (in_value k (v ++ (c ∷ []))) s

read-key : (k s rest : List ℕ) → read (in_key k) (ended s rest) ≡ read (in_value (k ++ s) []) rest
read-key k [] rest = ap (λ x. read (in_value x []) rest) (sym (append-nil k))
read-key k (c ∷ s) rest =
    read-key (k ++ (c ∷ [])) s rest
    ∙ ap (λ x. read (in_value x []) rest) (append_assoc k (c ∷ []) s)

read-value :
    (k v s rest : List ℕ) → read (in_value k v) (ended s rest) ≡ (k, v ++ s) ∷ read (in_key []) rest
read-value k v [] rest = ap (λ x. (k, x) ∷ read (in_key []) rest) (sym (append-nil v))
read-value k v (c ∷ s) rest =
    read-value k (v ++ (c ∷ [])) s rest
    ∙ ap (λ x. (k, x) ∷ read (in_key []) rest) (append_assoc v (c ∷ []) s)

pub read-write : (t : Tree) → read (in_key []) (write t) ≡ t
read-write [] = refl
read-write ((k, v) ∷ t) =
    read-key [] k (ended v (write t)) ∙ read-value k [] v (write t) ∙ ap (◌∷◌ (k, v)) (read-write t)

abbrev pub bool_text : Bool → List ℕ
bool_text true = text "true"
bool_text false = text "false"

abbrev pub text_bool : List ℕ → Option Bool
text_bool s =
    if eq_text s (text "true")
    then some true
    else if eq_text s (text "false")
    then some false
    else none

pub text_bool-bool_text : (b : Bool) → text_bool (bool_text b) ≡ some b
text_bool-bool_text true = refl
text_bool-bool_text false = refl

pub IsAscii-bool_text : (b : Bool) → IsAscii (bool_text b)
IsAscii-bool_text true = refl
IsAscii-bool_text false = refl

abbrev pub trees : Json
trees = record {
  Ptree = Tree;
  empty = [];
  put = put_text;
  get_optional = lookup_text;
  of_bool = bool_text;
  to_bool = text_bool;
  write_json = write;
  read_json = λ s. ok (read (in_key []) s);
  trim = λ s. s;
  IsObject = λ t. Unit;
  get-empty = λ k h. refl;
  get-put = λ k v t h. lookup_text-put_text k v t;
  get-put_other = λ k j v t h i n. lookup_text-put_other k j v t n;
  to_bool-of_bool = text_bool-bool_text;
  IsAscii-of_bool = IsAscii-bool_text;
  IsObject-put_empty = λ k v h a. tt;
  IsObject-put = λ k v t h a o. tt;
  read_json-write_json = λ t o. ap ok (read-write t);
  trim-trim = λ s. refl;
}
