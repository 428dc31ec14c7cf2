-- ===== src/Prelude/Outcome.antt =====
-- The outcome of a C++ call: a value, an exception, undefined behaviour, or a loop that has used up
-- the rounds that the model gives it.

use mathlib.Core.Path.{◌≡◌, refl}
use mathlib.Core.Bool.{Bool, true, false}
use mathlib.Core.Option.{Option, none, some}

-- One constructor for each `throw` of the modelled code, one for all that follow a failed call of the
-- system, and `out_of_range` for the exception of `at` on a vector or a map.
pub data Error : Type 0 where
  wrong_byte_count : Error
  too_few_octets : Error
  octet_above_255 : Error
  dot_expected : Error
  unknown_symbol : Error
  bad_mask_octet : Error
  mask_not_contiguous : Error
  bad_prefix : Error
  mac_incomplete : Error
  wrong_payload_type : Error
  wrong_payload_length : Error
  empty_value : Error
  not_in_list : Error
  too_short : Error
  constraint_violated : Error
  message_too_short : Error
  unsupported_hardware : Error
  bad_magic_cookie : Error
  not_in_pool : Error
  already_reserved : Error
  already_taken : Error
  not_reserved : Error
  no_free_address : Error
  out_of_range : Error
  bad_variant_access : Error
  digit_expected : Error
  character_expected : Error
  bracket_expected : Error
  empty_variable : Error
  unknown_variable : Error
  element_expected : Error
  end_expected : Error
  wrong_argument_count : Error
  system_call_failed : Error
  no_such_key : Error
  queue_is_empty : Error

pub data Result {ℓ} (A : Type ℓ) : Type ℓ where
  ok : A → Result A
  throw : Error → Result A
  undefined : Result A
  running : Result A

-- What follows a call is run on its value only. An abbreviation, so that it computes wherever the
-- call is an `ok`.
infixl 5 ◌>>=◌ ◌>>◌
abbrev pub ◌>>=◌ {ℓ κ} : {A : Type ℓ} {B : Type κ} → Result A → (A → Result B) → Result B
running >>= next = running
undefined >>= next = undefined
throw exception >>= next = throw exception
ok value >>= next = next value

abbrev pub ◌>>◌ {κ} : {B : Type κ} → Result (Unit {0}) → Result B → Result B
check >> next = check >>= λ done. next

-- `if (b) throw e;`
abbrev pub throw_if : Bool → Error → Result (Unit {0})
throw_if true e = throw e
throw_if false e = ok tt

-- `*iter`, given what stands at the iterator: past the end it is undefined behaviour.
abbrev pub deref {ℓ} : {A : Type ℓ} → Option A → Result A
deref (some a) = ok a
deref none = undefined

-- `at(i)`, given what stands there.
abbrev pub at {ℓ} : {A : Type ℓ} → Option A → Result A
at (some a) = ok a
at none = throw out_of_range

-- `try { ... } catch (...) { ... }`: no value where the call throws.
abbrev pub caught {ℓ} : {A : Type ℓ} → Result A → Result (Option A)
caught (ok a) = ok (some a)
caught (throw e) = ok none
caught undefined = undefined
caught running = running

-- Where a sequence of calls returns, the first of them returned a value.
pub >>=-eq-ok {ℓ κ} :
    {A : Type ℓ} {B : Type κ} (call : Result A) (next : A → Result B) {result : B}
    → (call >>= next) ≡ ok result
    → (value : A) × (call ≡ ok value) × (next value ≡ ok result)
>>=-eq-ok running next returned = cc
>>=-eq-ok undefined next returned = cc
>>=-eq-ok (throw exception) next returned = cc
>>=-eq-ok (ok value) next returned = (value, refl, returned)

pub ok-injective {ℓ} : {A : Type ℓ} {a b : A} → ok a ≡ ok b → a ≡ b
ok-injective h = cc

-- Inversion of a guard and of `at`, where the whole call returns.
pub throw_if-ok {ℓ} :
    {A : Type ℓ} (b : Bool) (e : Error) (k : Result A) {a : A}
    → (throw_if b e >> k) ≡ ok a
    → (b ≡ false) × (k ≡ ok a)
throw_if-ok true e k h = cc
throw_if-ok false e k h = (refl, h)

pub at-ok {ℓ κ} :
    {A : Type ℓ} {B : Type κ} (o : Option A) (f : A → Result B) {b : B}
    → (at o >>= f) ≡ ok b
    → (a : A) × (o ≡ some a) × (f a ≡ ok b)
at-ok none f h = cc
at-ok (some a) f h = (a, refl, h)

pub eq_of_some {ℓ} : {A : Type ℓ} {a b : A} → some a ≡ some b → a ≡ b
eq_of_some h = cc

-- The call ends: by a value, by an exception, or by undefined behaviour.
abbrev pub Ends {ℓ} : {A : Type ℓ} → Result A → Type 0
Ends running = ⊥
Ends _ = Unit

-- The call ends by a value or by an exception.
abbrev pub Concludes {ℓ} : {A : Type ℓ} → Result A → Type 0
Concludes running = ⊥
Concludes undefined = ⊥
Concludes _ = Unit

pub >>=-Concludes {ℓ κ} :
    {A : Type ℓ} {B : Type κ} (m : Result A) (f : A → Result B)
    → Concludes m
    → ((a : A) → Concludes (f a))
    → Concludes (m >>= f)
>>=-Concludes (ok a) f h k = k a
>>=-Concludes (throw e) f h k = tt
>>=-Concludes undefined f h k = h
>>=-Concludes running f h k = h

pub throw_if-Concludes {ℓ} :
    {A : Type ℓ} (b : Bool) (e : Error) (k : Result A) → Concludes k → Concludes (throw_if b e >> k)
throw_if-Concludes true e k h = tt
throw_if-Concludes false e k h = h

pub >>=-Ends {ℓ κ} :
    {A : Type ℓ} {B : Type κ} (m : Result A) (f : A → Result B)
    → Ends m
    → ((a : A) → Ends (f a))
    → Ends (m >>= f)
>>=-Ends (ok a) f h k = k a
>>=-Ends (throw e) f h k = tt
>>=-Ends undefined f h k = tt
>>=-Ends running f h k = h

pub throw_if-Ends {ℓ} :
    {A : Type ℓ} (b : Bool) (e : Error) (k : Result A) → Ends k → Ends (throw_if b e >> k)
throw_if-Ends true e k h = tt
throw_if-Ends false e k h = h
