-- ===== src/DhcpOption/RoundTrip.antt =====
-- dhcp/src/DhcpOption.cpp: an option that was read from a message, written again.
use klevret.Prelude.{ℕ, zero, suc, ◌+◌, ◌-◌, ◌≤◌, ◌<◌, ◌≡◌, ◌≢◌, refl, sym, ap, ◌∙◌, arith, Bool}
use klevret.Prelude.{
  ==_iff, eq_of_some, subst, ◌%◌, at-ok, throw_if-ok, true, false, List, [], ◌∷◌, ◌++◌, length,
  take, drop, All, ok,
}
use klevret.Prelude.{ok-injective, >>=-eq-ok, if◌then◌else◌, wrap_ℤ, ◌==◌, not}
use klevret.Prelude.{
  append-nil, append_assoc, take_add, All-drop, length-drop, Bool-cases, inl, inr,
}
use klevret.Prelude.{pos, eq_ℤ, some, ◌&&◌}
use klevret.Endians.{Endian, IsByte}
use klevret.OptionDescription.{PayloadType, OptionDescription, variable_length}
use klevret.OptionDescription.Table.{options_descriptions, find_description}
use klevret.DhcpOption.{DhcpOption, element_size, process_element, payload_loop}
use klevret.DhcpOption.{make_option, is_none}
use klevret.DhcpOption.Encode.{values_to_network_data, to_network_data}
use klevret.DhcpOption.Elements.{IsRead}
use klevret.DhcpOption.Rounds.{process_element-IsRead, true≢false}
use klevret.DhcpOption.Loop.{payload_loop_done, payload_loop_more, after}
use klevret.DhcpOption.Returning.{
  keeps_bytes, written-keeps_bytes, returns, process_element-returns,
}
use klevret.DhcpOption.Returning.{process_element-goes_on, values-append}

-- What the constructor's loop has done when it ends.
record IsParsed (native : Endian) (o o' : DhcpOption) (acc : List ℕ) (iter n : ℕ) (rest : List ℕ)
    : Type 0 where
  reached : iter ≤ n
  available : n - iter ≤ length rest
  writes : values_to_network_data native o'.real_values ≡ ok (acc ++ take (n - iter) rest)
  description : o'.description ≡ o.description
  payload_length : o'.real_payload_length ≡ o.real_payload_length

-- The constructor returns after this round: the value holds the rest of the payload.
IsParsed-last :
    (native : Endian) (t : PayloadType) (o o' : DhcpOption) (acc : List ℕ) (iter n : ℕ)
    (rest : List ℕ)
    → keeps_bytes native t ≡ true
    → iter ≤ n
    → values_to_network_data native o.real_values ≡ ok acc
    → IsRead native t o o' (n - iter) rest
    → IsParsed native o o' acc iter n rest
IsParsed-last native t o o' acc iter n rest hk le ha r = rw r.pushed (record {
  reached = le;
  available = r.available;
  writes =
      values-append native o.real_values r.value acc (take (n - iter) rest) ha
        (r.writes ∙ written-keeps_bytes native t _ hk);
  description = refl;
  payload_length = refl;
})

-- One element was read, and the loop has gone on behind it.
IsParsed-step :
    (native : Endian) (s : ℕ) (o o1 o' : DhcpOption) (acc : List ℕ) (iter n : ℕ) (rest : List ℕ)
    → s ≤ length rest
    → o1.description ≡ o.description
    → o1.real_payload_length ≡ o.real_payload_length
    → IsParsed native o1 o' (acc ++ take s rest) (iter + s) n (drop s rest)
    → IsParsed native o o' acc iter n rest
IsParsed-step native s o o1 o' acc iter n rest fits d l p = record {
  reached = omega arith;
  available = omega (arith, length-drop s rest);
  writes =
      p.writes
      ∙ ap ok (
          append_assoc acc (take s rest) (take (n - (iter + s)) (drop s rest))
          ∙ ap (λ r. acc ++ r) (take_add s (n - (iter + s)) (n - iter) rest (omega arith)));
  description = p.description ∙ d;
  payload_length = p.payload_length ∙ l;
}

payload_loop-IsParsed :
    (native : Endian) (fuel iter n : ℕ) (rest : List ℕ) (t : PayloadType) (o o' : DhcpOption)
    (acc : List ℕ)
    → All IsByte rest
    → keeps_bytes native t ≡ true
    → (returns t ≡ true → iter ≤ n)
    → values_to_network_data native o.real_values ≡ ok acc
    → payload_loop native fuel iter n rest t o ≡ ok o'
    → IsParsed native o o' acc iter n rest
payload_loop-IsParsed native zero iter n rest t o o' acc hb hk hr ha e = unfold payload_loop in cc
payload_loop-IsParsed native (suc fuel) iter n rest t o o' acc hb hk hr ha e =
    elim (Bool-cases (iter == n)) [
      | inl done ↦
          let stop : o ≡ o' =
            ok-injective (sym (payload_loop_done native fuel iter n rest t o done) ∙ e) in
          let same : iter ≡ n = (==_iff iter n).0 done in
          let nothing : n - iter ≡ 0 = omega arith in
          rw (← stop) (record {
            reached = omega arith;
            available = omega arith;
            writes = rw nothing (ha ∙ ap ok (sym (append-nil acc)));
            description = refl;
            payload_length = refl;
          })
      | inr more ↦
          let ((again, o1), e1, f1) =
            >>=-eq-ok (process_element native t o (n - iter) rest)
              (λ (s : Bool × DhcpOption). after native fuel iter n rest t o s.0 s.1)
              (sym (payload_loop_more native fuel iter n rest t o more) ∙ e) in
          split
            (λ o1 acc1.
              payload_loop-IsParsed native fuel (iter + element_size t) n
                (drop (element_size t) rest) t o1 o' acc1 (All-drop IsByte (element_size t) rest hb)
                hk)
            again o1 e1 f1
    ]
  where
    split :
        ((o1 : DhcpOption) (acc1 : List ℕ)
          → (returns t ≡ true → iter + element_size t ≤ n)
          → values_to_network_data native o1.real_values ≡ ok acc1
          → payload_loop native fuel (iter + element_size t) n (drop (element_size t) rest) t o1
            ≡ ok o'
          → IsParsed native o1 o' acc1 (iter + element_size t) n (drop (element_size t) rest))
        → (again : Bool) (o1 : DhcpOption)
        → process_element native t o (n - iter) rest ≡ ok (again, o1)
        → after native fuel iter n rest t o again o1 ≡ ok o'
        → IsParsed native o o' acc iter n rest
    split ih true o1 e1 f1 =
        let (r, back) = process_element-returns native t o (n - iter) rest o1 e1 in
        rw (ok-injective f1) at (IsParsed-last native t o o1 acc iter n rest hk (hr back) ha r)
    split ih false o1 e1 f1 =
        let r = process_element-IsRead native t o (n - iter) rest o1 hb e1 in
        let on = process_element-goes_on native t o (n - iter) rest o1 e1 in
        let s = element_size t in
        let values : values_to_network_data native o1.real_values ≡ ok (acc ++ take s rest) =
          rw r.pushed (
            values-append native o.real_values r.value acc (take s rest) ha
              (r.writes ∙ written-keeps_bytes native t _ hk)) in
        IsParsed-step native s o o1 o' acc iter n rest r.available
          (ap (λ (p : DhcpOption). p.description) r.pushed)
          (ap (λ (p : DhcpOption). p.real_payload_length) r.pushed)
          (ih o1 (acc ++ take s rest) (λ back. absurd (true≢false (sym back ∙ on))) values f1)

-- The description that the map gives for a code has that code.
find_description-code :
    (code : ℕ) (ds : List OptionDescription) (d : OptionDescription)
    → find_description code ds ≡ some d
    → d.code ≡ code
unfolding find_description
find_description-code code [] d h = cc
find_description-code code (x ∷ ds) d h = ground (arith, find_description-code code ds d)

pad_or_end :
    (code : ℕ) (d : OptionDescription)
    → find_description code options_descriptions ≡ some d
    → is_none d.payload_description.type ≡ false
    → (code ≢ 0) × (code ≢ 255)
unfolding find_description options_descriptions
pad_or_end code d h k = (λ e. absurd (ground arith), λ e. absurd (ground arith))

-- The object on which the constructor's loop starts.
abbrev pub fresh : OptionDescription → ℕ → DhcpOption
fresh d n = record {
  real_payload_length = if eq_ℤ d.payload_length variable_length then pos n else d.payload_length;
  description = d;
  real_values = [];
}

-- What a constructor's call that returned has found and done.
pub record IsMade (native : Endian) (code n : ℕ) (rest : List ℕ) (o : DhcpOption)
    (d : OptionDescription) : Type 0 where
  pub found : find_description code options_descriptions ≡ some d
  pub has_payload : is_none d.payload_description.type ≡ false
  pub length_fits :
      (not (eq_ℤ d.payload_length variable_length) && not (eq_ℤ d.payload_length (pos n))) ≡ false
  pub looped :
      payload_loop native (suc (length rest)) 0 n rest d.payload_description.type (fresh d n) ≡ ok o

pub make_option-IsMade :
    (native : Endian) (code n : ℕ) (rest : List ℕ) (o : DhcpOption)
    → make_option native code (pos n) n rest ≡ ok o
    → (d : OptionDescription) × IsMade native code n rest o d
unfolding make_option
make_option-IsMade native code n rest o h =
    let (d, e, f) = at-ok (find_description code options_descriptions) _ h in
    let (g, k) =
      throw_if-ok
        (not (eq_ℤ d.payload_length variable_length) && not (eq_ℤ d.payload_length (pos n))) _ _
        f in
    let (l, m) = throw_if-ok (is_none d.payload_description.type) _ _ k in
    (d, record { found = e; has_payload = l; length_fits = g; looped = m })

-- The byte that is written for the length.
length_byte :
    (d : OptionDescription) (n : ℕ)
    → n < 256
    → (not (eq_ℤ d.payload_length variable_length) && not (eq_ℤ d.payload_length (pos n))) ≡ false
    → wrap_ℤ 256 (
        if eq_ℤ d.payload_length variable_length
        then (fresh d n).real_payload_length
        else d.payload_length)
      ≡ n
length_byte d n h e = ground arith

pub to_network_data-IsMade :
    (native : Endian) (code n : ℕ) (rest : List ℕ) (o : DhcpOption) (d : OptionDescription)
    (payload : List ℕ)
    → code < 256
    → n < 256
    → IsMade native code n rest o d
    → o.description ≡ d
    → o.real_payload_length ≡ (fresh d n).real_payload_length
    → values_to_network_data native o.real_values ≡ ok payload
    → to_network_data native o ≡ ok (code ∷ n ∷ payload)
unfolding to_network_data
to_network_data-IsMade native code n rest o d payload hc hn made hd hl hv =
    let (pad, end) = pad_or_end code d made.found made.has_payload in
    let same = find_description-code code options_descriptions d made.found in
    let not_pad : (code == 0) ≡ false = ground arith in
    let not_end : (code == 255) ≡ false = ground arith in
    let low : code % 256 ≡ code = omega arith in
    rw (hd, hl, hv, same, not_pad, not_end, low, length_byte d n hn made.length_fits) refl

-- An option that was read from a message is written as it stood there, where its type keeps the
-- bytes: the code, the length and the payload.
pub to_network_data-make_option :
    (native : Endian) (code n : ℕ) (rest : List ℕ) (o : DhcpOption) (d : OptionDescription)
    → All IsByte rest
    → code < 256
    → n < 256
    → find_description code options_descriptions ≡ some d
    → keeps_bytes native d.payload_description.type ≡ true
    → make_option native code (pos n) n rest ≡ ok o
    → to_network_data native o ≡ ok (code ∷ n ∷ take n rest)
unfolding values_to_network_data
to_network_data-make_option native code n rest o d hb hc hn hd hk h =
    let (d', made) = make_option-IsMade native code n rest o h in
    let same : d ≡ d' = eq_of_some (sym hd ∙ made.found) in
    let kept : keeps_bytes native d'.payload_description.type ≡ true =
      subst (λ k. keeps_bytes native k.payload_description.type ≡ true) same hk in
    let p =
      payload_loop-IsParsed native (suc (length rest)) 0 n rest d'.payload_description.type
        (fresh d' n) o [] hb kept (λ _. omega arith) refl made.looped in
    let all : n - 0 ≡ n = omega arith in
    to_network_data-IsMade native code n rest o d' (take n rest) hc hn made p.description
      p.payload_length (p.writes ∙ ap (λ k. ok (take k rest)) all)
