-- ===== src/AddressPool/Methods.antt =====
-- dhcp/src/AddressPool.cpp: every method keeps the pool's maps consistent.
use klevret.Prelude.{subst, ◌≡◌, refl, sym, ap, ◌∙◌, arith, true, false}
use klevret.Prelude.{Option, some, none, Option-cases, Bool-cases, inl, inr, eq_of_some, not}
use klevret.Prelude.{Result, ok, throw, ok-injective, throw_if-ok}
use klevret.Prelude.{not_reserved}
use klevret.Prelude.Order.{same, same_refl}
use klevret.Prelude.Map
use klevret.Prelude.Map.{
  find-assign-same, find-assign_ne, find-erase-some, find-erase_ne, find-same,
}
use klevret.Endians.{Endian}
use klevret.IpAddress.{Ipv4Address}
use klevret.IpAddress.Laws.{ip_order}
use klevret.HardwareAddress.{MacAddress}
use klevret.HardwareAddress.Laws.{mac_order, same_mac→eq}
use klevret.AddressPool.{AddressPool, take_ip, is_some, is_ip_reserved, is_ip_taken, reserve_ip}
use klevret.AddressPool.{is_address_included, unreserve_ip}
use klevret.AddressPool.Invariant.{IsConsistent, holder, reserver, reserved_for}
use klevret.AddressPool.Invariant.{take_ip-IsConsistent}

pub none_of_not_some {ℓ} : {A : Type ℓ} (o : Option A) → is_some o ≡ false → o ≡ none
none_of_not_some none h = refl
none_of_not_some (some a) h = cc

pub some≢none {ℓ} : {A : Type ℓ} {o : Option A} {a : A} → o ≡ none → o ≡ some a → ⊥
some≢none p q = cc

-- Two clients under one key of the map of clients are one.
not_other : {a b : MacAddress} → a ≡ b → same mac_order a b ≡ false → ⊥
not_other {a} e d = ground (arith, same_refl mac_order a, ap (same mac_order a) e)

module _ (native : Endian) (p : AddressPool) (v : IsConsistent native p) where
  pub reserve_ip-IsConsistent :
      (ip : Ipv4Address) (mac : MacAddress) (p' : AddressPool)
      → reserve_ip native p ip mac ≡ ok p'
      → IsConsistent native p'
  unfolding reserve_ip
  reserve_ip-IsConsistent ip mac p' h =
      let (i, h1) = throw_if-ok (not (is_address_included native p ip)) _ _ h in
      let (r, h2) = throw_if-ok (is_ip_reserved native p ip) _ _ h1 in
      let (t, h3) = throw_if-ok (is_ip_taken native p ip) _ _ h2 in
      let not_reserved = none_of_not_some (reserver native p ip) r in
      let not_taken = none_of_not_some (holder native p ip) t in
      subst (IsConsistent native) (ok-injective h3) (record {
        held = v.held;
        reserved = λ m a e. elim (Bool-cases (same mac_order mac m)) [
          | inl s ↦
              let at : ip ≡ a =
                eq_of_some
                  (sym (find-assign-same mac_order mac m ip p.reserved_mac_addresses s) ∙ e) in
              find-assign-same (ip_order native) ip a mac p.reserved_ip_addresses (
                subst (λ k. same (ip_order native) ip k ≡ true) at (same_refl (ip_order native) ip))
              ∙ ap some (same_mac→eq mac m s)
          | inr d ↦
              let old =
                v.reserved m a
                  (sym (find-assign_ne mac_order mac m ip p.reserved_mac_addresses d) ∙ e) in
              elim (Bool-cases (same (ip_order native) ip a)) [
                | inl s ↦ absurd (
                    some≢none not_reserved
                      (find-same (ip_order native) ip a p.reserved_ip_addresses s ∙ old))
                | inr s ↦ find-assign_ne (ip_order native) ip a mac p.reserved_ip_addresses s ∙ old
              ]
        ];
        kept = λ m n a e k. elim (Bool-cases (same mac_order mac m)) [
          | inl s ↦
              let at : ip ≡ a =
                eq_of_some
                  (sym (find-assign-same mac_order mac m ip p.reserved_mac_addresses s) ∙ e) in
              absurd (some≢none not_taken (ap (holder native p) at ∙ k))
          | inr d ↦
              v.kept m n a (sym (find-assign_ne mac_order mac m ip p.reserved_mac_addresses d) ∙ e)
                k
        ];
        no_cache = v.no_cache;
      })

  unreserved :
      (ip : Ipv4Address) (mac : MacAddress)
      → reserver native p ip ≡ some mac
      → IsConsistent native (record p {
        reserved_mac_addresses = Map.erase mac_order mac p.reserved_mac_addresses;
        reserved_ip_addresses = Map.erase (ip_order native) ip p.reserved_ip_addresses;
      })
  unreserved ip mac f = record {
    held = v.held;
    reserved = λ m a e.
        let (e', d) = find-erase-some mac_order mac m p.reserved_mac_addresses e in
        let old = v.reserved m a e' in
        elim (Bool-cases (same (ip_order native) ip a)) [
          | inl s ↦ absurd (
              not_other
                (eq_of_some
                  (sym f ∙ (find-same (ip_order native) ip a p.reserved_ip_addresses s ∙ old)))
                d)
          | inr s ↦ find-erase_ne (ip_order native) ip a p.reserved_ip_addresses s ∙ old
        ];
    kept =
        λ m n a e k. v.kept m n a (find-erase-some mac_order mac m p.reserved_mac_addresses e).0 k;
    no_cache = v.no_cache;
  }

  pub unreserve_ip-IsConsistent :
      (ip : Ipv4Address) (p' : AddressPool)
      → unreserve_ip native p ip ≡ ok p'
      → IsConsistent native p'
  unfolding unreserve_ip
  unreserve_ip-IsConsistent ip p' h = elim (Option-cases (reserver native p ip)) [
    | inl e ↦ absurd (throw≢ok (rw (e, unreserve_ip) at h))
    | inr (mac, e) ↦
        subst (IsConsistent native) (ok-injective (rw (e, unreserve_ip) at h)) (unreserved ip mac e)
  ]
    where
      throw≢ok : ◌≡◌ {A = Result AddressPool} (throw not_reserved) (ok p') → ⊥
      throw≢ok e = cc

  -- A free address is one that nobody holds and nobody reserved.
  pub take_free :
      (mac : MacAddress) (ip : Ipv4Address)
      → reserver native p ip ≡ none
      → holder native p ip ≡ none
      → IsConsistent native (take_ip native p mac ip)
  take_free mac ip r t =
      take_ip-IsConsistent native p mac ip v (λ m e. absurd (some≢none t e))
        (λ m a e s. absurd (
          some≢none r
            (find-same (ip_order native) ip a p.reserved_ip_addresses s ∙ v.reserved m a e)))

  pub take_reserved :
      (mac : MacAddress) (ip : Ipv4Address)
      → reserved_for p mac ≡ some ip
      → IsConsistent native (take_ip native p mac ip)
  take_reserved mac ip r =
      take_ip-IsConsistent native p mac ip v (λ m e. v.kept mac m ip r e)
        (λ m a e s. eq_of_some (
          sym (v.reserved m a e)
          ∙ (sym (find-same (ip_order native) ip a p.reserved_ip_addresses s)
              ∙ v.reserved mac ip r)))
