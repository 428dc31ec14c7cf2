-- ===== src/UdpListener/Fragments.antt =====
-- dhcp/src/UdpListener.cpp: the fragments hold the datagram.
use klevret.Prelude.{
  ℕ, zero, suc, ◌+◌, ◌-◌, ◌*◌, ◌≤◌, ◌<◌, ◌≡◌, refl, sym, ap, ◌∙◌, arith, true, false,
}
use klevret.Prelude.{
  List, [], ◌∷◌, ◌++◌, length, take, drop, replicate, append_assoc, length-drop, ◌==◌,
}
use klevret.Prelude.{length-take_of_le, append-nil, subst}
use klevret.UdpListener.{Fragment, current_data, packets_count, divide_loop, divide}

-- What a receiver puts together.
abbrev pub joined : List Fragment → List ℕ
joined [] = []
joined (f ∷ fragments) = f.fragment_data ++ joined fragments

take-append-drop : (n : ℕ) (xs : List ℕ) → take n xs ++ drop n xs ≡ xs
take-append-drop zero xs = refl
take-append-drop (suc n) [] = refl
take-append-drop (suc n) (x ∷ xs) = ap (◌∷◌ x) (take-append-drop n xs)

divide_loop_none : (i : ℕ) → divide_loop i 0 [] ≡ []
unfolding divide_loop
divide_loop_none i = refl

divide_loop_more :
    (i left : ℕ) (rest : List ℕ)
    → divide_loop i (suc (suc left)) rest
      ≡ record {
        more_fragments = true;
        fragment_offset = i * 1024;
        fragment_data = current_data (take 1024 rest);
      }
        ∷ divide_loop (i + 1) (suc left) (drop 1024 rest)
unfolding divide_loop
divide_loop_more i left rest =
    let not_last : (suc left == 0) ≡ false = ground arith in rw (not_last, divide_loop) refl

current_data_full : (xs : List ℕ) → length xs ≡ 1024 → current_data xs ≡ xs
current_data_full xs len = ap (λ k. xs ++ replicate (1024 - k) 0) len ∙ append-nil xs

divide_loop_last :
    (i : ℕ) (rest : List ℕ)
    → joined (divide_loop i 1 rest) ≡ rest ++ replicate (1024 - length rest) 0
unfolding divide_loop
divide_loop_last i rest = append-nil _

divide_loop-joined :
    (i left : ℕ) (rest : List ℕ)
    → length rest ≤ left * 1024
    → left * 1024 < length rest + 1024
    → joined (divide_loop i left rest) ≡ rest ++ replicate (left * 1024 - length rest) 0
divide_loop-joined i zero [] fits full = ap joined (divide_loop_none i)
divide_loop-joined i zero (x ∷ rest) fits full = absurd (omega arith)
divide_loop-joined i (suc zero) rest fits full = divide_loop_last i rest
divide_loop-joined i (suc (suc left)) rest fits full =
    let len : length (take 1024 rest) ≡ 1024 = length-take_of_le 1024 rest (omega arith) in
    let more =
      divide_loop-joined (i + 1) (suc left) (drop 1024 rest) (omega (arith, length-drop 1024 rest))
        (omega (arith, length-drop 1024 rest)) in
    let zeros : suc left * 1024 - length (drop 1024 rest) ≡ suc (suc left) * 1024 - length rest =
      omega (arith, length-drop 1024 rest) in
    ap joined (divide_loop_more i left rest)
    ∙ (ap (λ xs. xs ++ joined (divide_loop (i + 1) (suc left) (drop 1024 rest)))
          (current_data_full (take 1024 rest) len)
        ∙ (ap (λ xs. take 1024 rest ++ xs) (more ∙ ap (λ k. drop 1024 rest ++ replicate k 0) zeros)
            ∙ (sym (append_assoc (take 1024 rest) (drop 1024 rest) _)
                ∙ ap (λ xs. xs ++ replicate (suc (suc left) * 1024 - length rest) 0)
                    (take-append-drop 1024 rest))))

-- The fragments hold the datagram from its first byte to its last, with zeros behind it to fill the
-- last fragment.
pub divide-joined :
    (bytes : List ℕ)
    → joined (divide bytes) ≡ bytes ++ replicate (packets_count bytes * 1024 - length bytes) 0
unfolding divide
divide-joined bytes = divide_loop-joined 0 (packets_count bytes) bytes (ground arith) (ground arith)

-- The fragments from the one with the number `i` on: flags and offsets.
abbrev pub Numbered : ℕ → List Fragment → Type 0
Numbered i [] = ⊥
Numbered i (f ∷ []) = (f.more_fragments ≡ false) × (f.fragment_offset ≡ i * 1024)
Numbered i (f ∷ g ∷ fragments) =
    ((f.more_fragments ≡ true) × (f.fragment_offset ≡ i * 1024)) × Numbered (i + 1) (g ∷ fragments)

Numbered-cons :
    (i : ℕ) (f : Fragment) (fragments : List Fragment)
    → f.more_fragments ≡ true
    → f.fragment_offset ≡ i * 1024
    → Numbered (i + 1) fragments
    → Numbered i (f ∷ fragments)
Numbered-cons i f [] m o h = absurd h
Numbered-cons i f (g ∷ fragments) m o h = ((m, o), h)

divide_loop_one : (i : ℕ) (rest : List ℕ) → Numbered i (divide_loop i 1 rest)
unfolding divide_loop
divide_loop_one i rest = (refl, refl)

divide_loop-Numbered : (i left : ℕ) (rest : List ℕ) → Numbered i (divide_loop i (suc left) rest)
divide_loop-Numbered i zero rest = divide_loop_one i rest
divide_loop-Numbered i (suc left) rest = subst (Numbered i) (sym (divide_loop_more i left rest)) (
    Numbered-cons i
      (record {
        more_fragments = true;
        fragment_offset = i * 1024;
        fragment_data = current_data (take 1024 rest);
      })
      _ refl refl (divide_loop-Numbered (i + 1) left (drop 1024 rest)))

-- The fragments of a datagram that is not empty are numbered: each but the last says that more
-- follow, the last says that none does, and the offset of the fragment `k` is `k * 1024`.
pub divide-Numbered : (bytes : List ℕ) → 0 < length bytes → Numbered 0 (divide bytes)
unfolding divide
divide-Numbered bytes h =
    let some_packets : suc (packets_count bytes - 1) ≡ packets_count bytes = ground arith in
    subst (λ k. Numbered 0 (divide_loop 0 k bytes)) some_packets
      (divide_loop-Numbered 0 (packets_count bytes - 1) bytes)
