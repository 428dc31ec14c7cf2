-- ===== src/AddressPool/Together.antt =====
-- dhcp/src/AddressPool.hpp: the maps of addresses and of clients that belong together.
use klevret.Prelude.{subst, ◌≡◌, sym, ◌∙◌, true, false, some, none}
use klevret.Prelude.{
  Bool-cases, Option-cases, inl, inr, eq_of_some, ok, Result, throw, not, not_reserved,
  ok-injective, throw_if-ok,
}
use klevret.Prelude.Order.{same, same_refl, same_sym, same_trans}
use klevret.Prelude.Map
use klevret.Prelude.Map.{
  find-assign-same, find-assign_ne, find-erase-some, find-erase_ne, find-same,
}
use klevret.Endians.{Endian}
use klevret.IpAddress.{Ipv4Address}
use klevret.IpAddress.Laws.{ip_order}
use klevret.HardwareAddress.{MacAddress}
use klevret.HardwareAddress.Laws.{mac_order}
use klevret.AddressPool.{
  AddressPool, take_ip, reserve_ip, unreserve_ip, is_address_included, is_ip_reserved, is_ip_taken,
}
use klevret.AddressPool.Invariant.{IsConsistent, holder, reserver, held_by, reserved_for}
use klevret.AddressPool.Methods.{some≢none, reserve_ip-IsConsistent, unreserve_ip-IsConsistent}

-- The pool is consistent, and the other way round too: a client in a map of addresses has an address of
-- that value in the map of clients. A client with a reservation holds no other address.
pub record IsTogether (native : Endian) (p : AddressPool) : Type 0 where
  pub consistent : IsConsistent native p
  pub taken :
      (a : Ipv4Address) (m : MacAddress)
      → holder native p a ≡ some m
      → (b : Ipv4Address) × (held_by p m ≡ some b) × (same (ip_order native) b a ≡ true)
  pub reserved :
      (a : Ipv4Address) (m : MacAddress)
      → reserver native p a ≡ some m
      → (b : Ipv4Address) × (reserved_for p m ≡ some b) × (same (ip_order native) b a ≡ true)
  pub own :
      (m : MacAddress) (a b : Ipv4Address)
      → reserved_for p m ≡ some a
      → held_by p m ≡ some b
      → same (ip_order native) a b ≡ true

true≢false : {A : Type 0} → true ≡ false → A
true≢false h = absurd (cc)

module _ (native : Endian) (p : AddressPool) (v : IsTogether native p) where
  reserve_taken_back :
      (ip : Ipv4Address) (mac : MacAddress)
      → reserved_for p mac ≡ none
      → (a : Ipv4Address) (m : MacAddress)
      → Map.find (ip_order native) a (Map.assign (ip_order native) ip mac p.reserved_ip_addresses)
        ≡ some m
      → (b : Ipv4Address) × (Map.find mac_order m
            (Map.assign mac_order mac ip p.reserved_mac_addresses)
          ≡ some b)
        × (same (ip_order native) b a ≡ true)
  reserve_taken_back ip mac r a m h = elim (Bool-cases (same (ip_order native) ip a)) [
    | inl s ↦
        let e : mac ≡ m =
          eq_of_some
            (sym (find-assign-same (ip_order native) ip a mac p.reserved_ip_addresses s) ∙ h) in
        (
          ip,
          find-assign-same mac_order mac m ip p.reserved_mac_addresses
              (subst (λ k. same mac_order mac k ≡ true) e (same_refl mac_order mac)),
          s,
        )
    | inr d ↦
        let (b, f, s) =
          v.reserved a m
            (sym (find-assign_ne (ip_order native) ip a mac p.reserved_ip_addresses d) ∙ h) in
        elim (Bool-cases (same mac_order mac m)) [
          | inl t ↦ absurd (some≢none r (find-same mac_order mac m p.reserved_mac_addresses t ∙ f))
          | inr t ↦ (b, find-assign_ne mac_order mac m ip p.reserved_mac_addresses t ∙ f, s)
        ]
  ]

  -- A reservation for a client without an address and without a reservation.
  pub reserve_ip-IsTogether :
      (ip : Ipv4Address) (mac : MacAddress) (p' : AddressPool)
      → reserved_for p mac ≡ none
      → held_by p mac ≡ none
      → reserve_ip native p ip mac ≡ ok p'
      → IsTogether native p'
  unfolding reserve_ip
  reserve_ip-IsTogether ip mac p' r t h =
      let consistent = reserve_ip-IsConsistent native p v.consistent ip mac p' h in
      let (_, h1) = throw_if-ok (not (is_address_included native p ip)) _ _ h in
      let (_, h2) = throw_if-ok (is_ip_reserved native p ip) _ _ h1 in
      let (_, h3) = throw_if-ok (is_ip_taken native p ip) _ _ h2 in
      let e = ok-injective h3 in
      subst (IsTogether native) e (record {
        consistent = subst (IsConsistent native) (sym e) consistent;
        taken = v.taken;
        reserved = reserve_taken_back ip mac r;
        own = λ m a b k l. elim (Bool-cases (same mac_order mac m)) [
          | inl s ↦ absurd (some≢none t (find-same mac_order mac m p.taken_mac_addresses s ∙ l))
          | inr d ↦
              v.own m a b (sym (find-assign_ne mac_order mac m ip p.reserved_mac_addresses d) ∙ k) l
        ];
      })

  unreserved_back :
      (ip : Ipv4Address) (mac : MacAddress)
      → reserver native p ip ≡ some mac
      → (a : Ipv4Address) (m : MacAddress)
      → Map.find (ip_order native) a (Map.erase (ip_order native) ip p.reserved_ip_addresses)
        ≡ some m
      → (b : Ipv4Address) × (Map.find mac_order m (Map.erase mac_order mac p.reserved_mac_addresses)
          ≡ some b)
        × (same (ip_order native) b a ≡ true)
  unreserved_back ip mac r a m h =
      let (h', d) = find-erase-some (ip_order native) ip a p.reserved_ip_addresses h in
      let (b, f, s) = v.reserved a m h' in
      elim (Bool-cases (same mac_order mac m)) [
        | inl t ↦
            let (c, g, u) = v.reserved ip mac r in
            let at : c ≡ b =
              eq_of_some (sym g ∙ find-same mac_order mac m p.reserved_mac_addresses t ∙ f) in
            let both =
              same_trans (ip_order native) ip c a (same_sym (ip_order native) c ip u)
                (subst (λ k. same (ip_order native) k a ≡ true) (sym at) s) in
            true≢false (sym both ∙ d)
        | inr t ↦ (b, find-erase_ne mac_order mac m p.reserved_mac_addresses t ∙ f, s)
      ]

  pub unreserve_ip-IsTogether :
      (ip : Ipv4Address) (p' : AddressPool)
      → unreserve_ip native p ip ≡ ok p'
      → IsTogether native p'
  unfolding unreserve_ip
  unreserve_ip-IsTogether ip p' h =
      let consistent = unreserve_ip-IsConsistent native p v.consistent ip p' h in
      elim (Option-cases (reserver native p ip)) [
        | inl e ↦ absurd (throw≢ok (rw (e, unreserve_ip) at h))
        | inr (mac, e) ↦
            let f = ok-injective (rw (e, unreserve_ip) at h) in
            subst (IsTogether native) f (record {
              consistent = subst (IsConsistent native) (sym f) consistent;
              taken = v.taken;
              reserved = unreserved_back ip mac e;
              own = λ m a b k l.
                  v.own m a b (find-erase-some mac_order mac m p.reserved_mac_addresses k).0 l;
            })
      ]
    where
      throw≢ok : ◌≡◌ {A = Result AddressPool} (throw not_reserved) (ok p') → ⊥
      throw≢ok e = cc

  taken_back :
      (mac : MacAddress) (ip : Ipv4Address)
      → ((b : Ipv4Address) → held_by p mac ≡ some b → same (ip_order native) ip b ≡ true)
      → (a : Ipv4Address) (m : MacAddress) → holder native (take_ip native p mac ip) a ≡ some m
      → (b : Ipv4Address) × (held_by (take_ip native p mac ip) m ≡ some b)
        × (same (ip_order native) b a ≡ true)
  taken_back mac ip kept a m h = elim (Bool-cases (same (ip_order native) ip a)) [
    | inl s ↦
        let e : mac ≡ m =
          eq_of_some
            (sym (find-assign-same (ip_order native) ip a mac p.taken_ip_addresses s) ∙ h) in
        (
          ip,
          find-assign-same mac_order mac m ip p.taken_mac_addresses
              (subst (λ k. same mac_order mac k ≡ true) e (same_refl mac_order mac)),
          s,
        )
    | inr d ↦
        let (b, f, s) =
          v.taken a m
            (sym (find-assign_ne (ip_order native) ip a mac p.taken_ip_addresses d) ∙ h) in
        elim (Bool-cases (same mac_order mac m)) [
          | inl t ↦
              let g = kept b (find-same mac_order mac m p.taken_mac_addresses t ∙ f) in
              true≢false (sym (same_trans (ip_order native) ip b a g s) ∙ d)
          | inr t ↦ (b, find-assign_ne mac_order mac m ip p.taken_mac_addresses t ∙ f, s)
        ]
  ]

  -- A client takes an address that is not another than the one it holds or has reserved.
  pub take_ip-IsTogether :
      (mac : MacAddress) (ip : Ipv4Address)
      → IsConsistent native (take_ip native p mac ip)
      → ((b : Ipv4Address) → held_by p mac ≡ some b → same (ip_order native) ip b ≡ true)
      → ((b : Ipv4Address) → reserved_for p mac ≡ some b → same (ip_order native) b ip ≡ true)
      → IsTogether native (take_ip native p mac ip)
  take_ip-IsTogether mac ip consistent kept fits = record {
    consistent = consistent;
    taken = taken_back mac ip kept;
    reserved = v.reserved;
    own = λ m a b k l. elim (Bool-cases (same mac_order mac m)) [
      | inl s ↦
          let at : ip ≡ b =
            eq_of_some (sym (find-assign-same mac_order mac m ip p.taken_mac_addresses s) ∙ l) in
          subst (λ x. same (ip_order native) a x ≡ true) at
            (fits a (find-same mac_order mac m p.reserved_mac_addresses s ∙ k))
      | inr d ↦ v.own m a b k (sym (find-assign_ne mac_order mac m ip p.taken_mac_addresses d) ∙ l)
    ];
  }
