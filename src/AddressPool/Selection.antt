-- ===== src/AddressPool/Selection.antt =====
-- dhcp/src/AddressPool.cpp: which address `get_address` gives.
use klevret.Prelude.{subst, ◌≡◌, ◌↔◌, refl, sym, ap, ◌∙◌, arith, Bool, true, false}
use klevret.Prelude.{List, [], ◌∷◌, ◌++◌, some, none, Option-cases, Bool-cases, inl, inr}
use klevret.Prelude.{eq_of_some, ◌||◌, All, Result, ok, throw, ok-injective}
use klevret.Prelude.{no_free_address}
use klevret.Prelude.Order.{same, same_refl}
use klevret.Prelude.Map.{find, find-assign-same, find-same}
use klevret.Endians.{Endian}
use klevret.IpAddress.{Ipv4Address}
use klevret.IpAddress.Laws.{ip_order}
use klevret.HardwareAddress.{MacAddress}
use klevret.HardwareAddress.Laws.{mac_order}
use klevret.AddressPool.{AddressPool, take_ip, is_ip_reserved, is_ip_taken}
use klevret.AddressPool.{first_free, get_address}
use klevret.AddressPool.Invariant.{IsConsistent, holder, held_by, reserver, reserved_for}
use klevret.AddressPool.Methods.{take_free}
use klevret.AddressPool.Methods.{take_reserved, none_of_not_some}

-- An included address that is not given out to a new client.
abbrev pub is_unavailable : Endian → AddressPool → Ipv4Address → Bool
is_unavailable native p ip = is_ip_reserved native p ip || is_ip_taken native p ip

-- The address that a new client gets: the first available one.
pub record IsFirstFree (native : Endian) (p : AddressPool) (ips : List Ipv4Address)
    (ip : Ipv4Address) : Type 0 where
  pub front : List Ipv4Address
  pub back : List Ipv4Address
  pub listed : ips ≡ front ++ (ip ∷ back)
  pub passed : All (λ a. is_unavailable native p a ≡ true) front
  pub available : is_unavailable native p ip ≡ false

pub first_free-ok :
    (native : Endian) (p : AddressPool) (mac : MacAddress) (ips : List Ipv4Address)
    (ip : Ipv4Address) (p' : AddressPool)
    → first_free native p mac ips ≡ ok (ip, p')
    → IsFirstFree native p ips ip × (p' ≡ take_ip native p mac ip)
unfolding first_free
first_free-ok native p mac [] ip p' h = cc
first_free-ok native p mac (a ∷ ips) ip p' h = elim (Bool-cases (is_unavailable native p a)) [
  | inl busy ↦
      let (r, e) = first_free-ok native p mac ips ip p' (rw busy at h) in
      (
        record {
          front = a ∷ r.front;
          back = r.back;
          listed = ap (◌∷◌ a) r.listed;
          passed = (busy, r.passed);
          available = r.available;
        },
        e,
      )
  | inr free ↦
      let e = ok-injective (rw free at h) in
      let at : a ≡ ip = ap (λ (x : Ipv4Address × AddressPool). x.0) e in
      (
        record {
          front = [];
          back = ips;
          listed = ap (λ k. k ∷ ips) at;
          passed = tt;
          available = subst (λ k. is_unavailable native p k ≡ false) at free;
        },
        sym (ap (λ (x : Ipv4Address × AddressPool). x.1) e) ∙ ap (take_ip native p mac) at,
      )
]

-- Without an available address the loop throws, and only then.
pub first_free-throw :
    (native : Endian) (p : AddressPool) (mac : MacAddress) (ips : List Ipv4Address)
    → (first_free native p mac ips ≡ throw no_free_address)
      ↔ All (λ a. is_unavailable native p a ≡ true) ips
unfolding first_free
first_free-throw native p mac [] = (λ _. tt, λ _. refl)
first_free-throw native p mac (a ∷ ips) =
    let (to, from) = first_free-throw native p mac ips in
    elim (Bool-cases (is_unavailable native p a)) [
      | inl busy ↦ (λ h. (busy, to (rw busy at h)), λ h. rw busy (from h.1))
      | inr free ↦
          (λ h. absurd (ok≢throw (rw free at h)), λ h. absurd (true≢false (sym h.0 ∙ free)))
    ]
  where
    ok≢throw :
        ◌≡◌ {A = Result (Ipv4Address × AddressPool)}
          (ok (a, take_ip native p mac a))
          (throw no_free_address)
        → ⊥
    ok≢throw e = cc

    true≢false : ◌≡◌ {A = Bool} true false → ⊥
    true≢false e = cc

-- The four ways through `get_address`, while nothing is cached.
pub get_address-reserved :
    (native : Endian) (p : AddressPool) (mac : MacAddress) (ip : Ipv4Address)
    → reserved_for p mac ≡ some ip
    → get_address native p mac ≡ ok (ip, take_ip native p mac ip)
unfolding get_address
get_address-reserved native p mac ip e = rw (e, get_address)

pub get_address-held :
    (native : Endian) (p : AddressPool) (mac : MacAddress) (ip : Ipv4Address)
    → reserved_for p mac ≡ none
    → held_by p mac ≡ some ip
    → get_address native p mac ≡ ok (ip, p)
unfolding get_address
get_address-held native p mac ip r e = rw (r, get_address, e)

pub get_address-new :
    (native : Endian) (p : AddressPool) (mac : MacAddress)
    → reserved_for p mac ≡ none
    → held_by p mac ≡ none
    → p.cache ≡ []
    → get_address native p mac ≡ first_free native p mac p.included_addresses
unfolding get_address find
get_address-new native p mac r e c =
    let miss : find mac_order mac p.cache ≡ none = ap (find mac_order mac) c in
    rw (r, get_address, e, miss)

-- What a call that returned has done.
pub data Given (native : Endian) (p : AddressPool) (mac : MacAddress) (ip : Ipv4Address)
    (p' : AddressPool) : Type 0 where
  reserved : reserved_for p mac ≡ some ip → p' ≡ take_ip native p mac ip → Given native p mac ip p'
  held : reserved_for p mac ≡ none → held_by p mac ≡ some ip → p' ≡ p → Given native p mac ip p'
  fresh :
      reserved_for p mac ≡ none
      → held_by p mac ≡ none
      → IsFirstFree native p p.included_addresses ip
      → p' ≡ take_ip native p mac ip
      → Given native p mac ip p'

pub get_address-Given :
    (native : Endian) (p : AddressPool) (mac : MacAddress) (ip : Ipv4Address) (p' : AddressPool)
    → p.cache ≡ []
    → get_address native p mac ≡ ok (ip, p')
    → Given native p mac ip p'
get_address-Given native p mac ip p' c h = elim (Option-cases (reserved_for p mac)) [
  | inr (a, r) ↦
      let e = ok-injective (sym (get_address-reserved native p mac a r) ∙ h) in
      let at : a ≡ ip = ap (λ (x : Ipv4Address × AddressPool). x.0) e in
      Given.reserved (r ∙ ap some at)
        (sym (ap (λ (x : Ipv4Address × AddressPool). x.1) e) ∙ ap (take_ip native p mac) at)
  | inl r ↦ elim (Option-cases (held_by p mac)) [
    | inr (a, t) ↦
        let e = ok-injective (sym (get_address-held native p mac a r t) ∙ h) in
        Given.held r (t ∙ ap some (ap (λ (x : Ipv4Address × AddressPool). x.0) e))
          (sym (ap (λ (x : Ipv4Address × AddressPool). x.1) e))
    | inl t ↦
        let (f, e) =
          first_free-ok native p mac p.included_addresses ip p'
            (sym (get_address-new native p mac r t c) ∙ h) in
        Given.fresh r t f e
  ]
]

take_ip-held_by :
    (native : Endian) (p : AddressPool) (mac : MacAddress) (ip : Ipv4Address)
    → held_by (take_ip native p mac ip) mac ≡ some ip
take_ip-held_by native p mac ip =
    find-assign-same mac_order mac mac ip p.taken_mac_addresses (same_refl mac_order mac)

available-none :
    (native : Endian) (p : AddressPool) (ip : Ipv4Address)
    → is_unavailable native p ip ≡ false
    → (reserver native p ip ≡ none) × (holder native p ip ≡ none)
available-none native p ip h = (
  none_of_not_some (reserver native p ip) (ground arith),
  none_of_not_some (holder native p ip) (ground arith),
)

-- A call that returns keeps the pool consistent, and the client holds the address that it returned.
pub get_address-IsConsistent :
    (native : Endian) (p : AddressPool) (mac : MacAddress) (ip : Ipv4Address) (p' : AddressPool)
    → IsConsistent native p
    → get_address native p mac ≡ ok (ip, p')
    → IsConsistent native p' × (held_by p' mac ≡ some ip)
get_address-IsConsistent native p mac ip p' v h =
    go (get_address-Given native p mac ip p' v.no_cache h)
  where
    go : Given native p mac ip p' → IsConsistent native p' × (held_by p' mac ≡ some ip)
    go (Given.reserved r e) =
        rw e (take_reserved native p v mac ip r, take_ip-held_by native p mac ip)
    go (Given.held r t e) = rw e (v, t)
    go (Given.fresh r t f e) =
        let (a, b) = available-none native p ip f.available in
        rw e (take_free native p v mac ip a b, take_ip-held_by native p mac ip)

-- No two clients get one address: once a client was given an address, whoever else holds an
-- address of the same value is that client.
pub get_address_exclusive :
    (native : Endian) (p : AddressPool) (mac n : MacAddress) (ip a : Ipv4Address) (p' : AddressPool)
    → IsConsistent native p
    → get_address native p mac ≡ ok (ip, p')
    → held_by p' n ≡ some a
    → same (ip_order native) ip a ≡ true
    → n ≡ mac
get_address_exclusive native p mac n ip a p' v h k s =
    let (v', t) = get_address-IsConsistent native p mac ip p' v h in
    eq_of_some (
      sym (v'.held n a k)
      ∙ (sym (find-same (ip_order native) ip a p'.taken_ip_addresses s) ∙ v'.held mac ip t))

-- A client that asks again gets the same address.
pub get_address_again :
    (native : Endian) (p : AddressPool) (mac : MacAddress) (ip : Ipv4Address) (p' : AddressPool)
    → IsConsistent native p
    → get_address native p mac ≡ ok (ip, p')
    → (q : AddressPool) × (get_address native p' mac ≡ ok (ip, q))
get_address_again native p mac ip p' v h = go (get_address-Given native p mac ip p' v.no_cache h)
  where
    go : Given native p mac ip p' → (q : AddressPool) × (get_address native p' mac ≡ ok (ip, q))
    go (Given.reserved r e) = rw e (_, get_address-reserved native _ mac ip r)
    go (Given.held r t e) = rw e (_, get_address-held native p mac ip r t)
    go (Given.fresh r t f e) =
        rw e (_, get_address-held native _ mac ip r (take_ip-held_by native p mac ip))

-- A client with no reservation and no address gets the first included address that is neither
-- reserved nor taken.
pub get_address-IsFirstFree :
    (native : Endian) (p : AddressPool) (mac : MacAddress) (ip : Ipv4Address) (p' : AddressPool)
    → IsConsistent native p
    → reserved_for p mac ≡ none
    → held_by p mac ≡ none
    → get_address native p mac ≡ ok (ip, p')
    → IsFirstFree native p p.included_addresses ip
get_address-IsFirstFree native p mac ip p' v r t h =
    let new = get_address-new native p mac r t v.no_cache in
    (first_free-ok native p mac p.included_addresses ip p' (sym new ∙ h)).0

-- A client with no reservation and no address is refused exactly when every included address is
-- reserved or taken.
pub get_address_exhausted :
    (native : Endian) (p : AddressPool) (mac : MacAddress)
    → IsConsistent native p
    → reserved_for p mac ≡ none
    → held_by p mac ≡ none
    → (get_address native p mac ≡ throw no_free_address)
      ↔ All (λ a. is_unavailable native p a ≡ true) p.included_addresses
get_address_exhausted native p mac v r t =
    rw (get_address-new native p mac r t v.no_cache)
      (first_free-throw native p mac p.included_addresses)
