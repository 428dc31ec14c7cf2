-- ===== src/DhcpServer/Pools.antt =====
-- dhcp/src/DhcpServer.cpp: which pools `add_address_pool` accepts.
use klevret.Prelude.{ℕ, ◌≤◌, ◌<◌, ◌≡◌, ◌↔◌, ◌⊎◌, inl, inr, refl, arith, true, false, List, [], ◌∷◌}
use klevret.Prelude.{All, Bool-cases}
use klevret.Endians.{Endian}
use klevret.IpAddress.{to_uint32_t}
use klevret.AddressPool.{AddressPool}
use klevret.DhcpServer.{DhcpServer, intersects, intersects_any, add_address_pool}

module _ (native : Endian) where
  abbrev pub first_of : AddressPool → ℕ
  first_of p = to_uint32_t native p.addresses_range.start

  abbrev pub last_of : AddressPool → ℕ
  last_of p = to_uint32_t native p.addresses_range.end

  -- The range holds an address at least.
  abbrev pub IsRange : AddressPool → Type 0
  IsRange p = first_of p ≤ last_of p

  -- No address is in both ranges.
  abbrev pub Apart : AddressPool → AddressPool → Type 0
  Apart p q = (last_of p < first_of q) ⊎ (last_of q < first_of p)

  -- The first range goes beyond the second at both ends.
  abbrev pub Around : AddressPool → AddressPool → Type 0
  Around p q = (first_of p < first_of q) × (last_of q < last_of p)

  intersects_iff :
      (p q : AddressPool)
      → IsRange p
      → IsRange q
      → (intersects native p q ≡ false) ↔ (Apart p q ⊎ Around p q)
  intersects_iff p q v w = (λ h. ground arith, λ h. ground arith)

  intersects_any_iff :
      (p : AddressPool) (pools : List AddressPool)
      → IsRange p
      → All IsRange pools
      → (intersects_any native p pools ≡ false) ↔ All (λ q. Apart p q ⊎ Around p q) pools
  unfolding intersects_any
  intersects_any_iff p [] v w = (λ h. tt, λ h. refl)
  intersects_any_iff p (q ∷ pools) v (w, ws) =
      let (to, from) = intersects_iff p q v w in
      let (to_rest, from_rest) = intersects_any_iff p pools v ws in
      elim (Bool-cases (intersects native p q)) [
        | inl e ↦ (
          λ h. absurd (true≢false (rw (e, intersects_any) at h)),
          λ h. absurd (true≢false (rw e at (from h.0))),
        )
        | inr e ↦ rw (e, intersects_any) (λ h. (to e, to_rest h), λ h. from_rest h.1)
      ]
    where
      true≢false : true ≡ false → ⊥
      true≢false e = cc

  -- A pool is accepted exactly when its range shares no address with any pool's range or goes
  -- beyond it at both ends, where every range holds an address.
  pub add_address_pool_iff :
      (s : DhcpServer) (p : AddressPool)
      → IsRange p
      → All IsRange s.address_pools
      → ((add_address_pool native s p).0 ≡ true) ↔ All (λ q. Apart p q ⊎ Around p q) s.address_pools
  unfolding add_address_pool
  add_address_pool_iff s p v w =
      let (to, from) = intersects_any_iff p s.address_pools v w in
      elim (Bool-cases (intersects_any native p s.address_pools)) [
        | inl e ↦ (λ h. absurd (ground arith), λ h. absurd (ground (arith, from h)))
        | inr e ↦ rw (e, add_address_pool) (λ h. to e, λ h. refl)
      ]
