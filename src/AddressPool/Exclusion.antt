-- ===== src/AddressPool/Exclusion.antt =====
-- dhcp/src/AddressPool.cpp: `exclude_ip` and `exclude_ip_range`, by what the methods that they call keep.
use klevret.Prelude.{ℕ, zero, suc, subst, ◌≡◌, Bool, true, false, List}
use klevret.Prelude.{Bool-cases, inl, inr}
use klevret.Prelude.{Result, ok, running, ok-injective, >>=-eq-ok, if◌then◌else◌}
use klevret.Prelude.SortedSet.{std_find, insert, erase_found}
use klevret.Endians.{Endian}
use klevret.IpAddress.{Ipv4Address, eq_ip, increment}
use klevret.IpAddress.Laws.{ip_order}
use klevret.AddressPool.{AddressPool, is_ip_reserved, unreserve_ip, exclude_ip}
use klevret.AddressPool.{exclude_ip_range, erase_cached}
use klevret.AddressPool.{release_address, is_ip_taken}

-- What `exclude_ip` keeps: all that `unreserve_ip` keeps, and that the sets and the cache do not touch.
module _ (native : Endian) (P : AddressPool → Type 0)
    (unreserving : (p : AddressPool) (ip : Ipv4Address) (p' : AddressPool)
      → P p
      → unreserve_ip native p ip ≡ ok p'
      → P p')
    (excluding : (p : AddressPool) (excluded : List Ipv4Address)
      → P p
      → P (record p { excluded_addresses = excluded }))
    (removing : (p : AddressPool) (included : List Ipv4Address) (ip : Ipv4Address)
      → P p
      → P (record p { cache = erase_cached ip p.cache; included_addresses = included })) where
  unreserve_if-keeps :
      (p : AddressPool) (ip : Ipv4Address) (p' : AddressPool) (b : Bool)
      → P p
      → (if b then unreserve_ip native p ip else ok p) ≡ ok p'
      → P p'
  unreserve_if-keeps p ip p' true v h = unreserving p ip p' v h
  unreserve_if-keeps p ip p' false v h = subst P (ok-injective h) v

  release_if-keeps :
      (p : AddressPool) (ip : Ipv4Address) (b : Bool)
      → P p
      → P (if b then release_address native p ip else p)
  release_if-keeps p ip true v = v
  release_if-keeps p ip false v = v

  pub exclude_ip-keeps :
      (p : AddressPool) (ip : Ipv4Address) (p' : AddressPool)
      → P p
      → exclude_ip native p ip ≡ ok p'
      → P p'
  unfolding exclude_ip
  exclude_ip-keeps p ip p' v h = elim (Bool-cases (std_find eq_ip ip p.included_addresses)) [
    | inl found ↦
        let p1 = record p {
          excluded_addresses = insert (ip_order native) ip p.excluded_addresses;
        } in
        let (p2, e, f) =
          >>=-eq-ok (if is_ip_reserved native p1 ip then unreserve_ip native p1 ip else ok p1) _
            (rw (found, exclude_ip) at h) in
        let v1 = excluding p (insert (ip_order native) ip p.excluded_addresses) v in
        let v2 = unreserve_if-keeps p1 ip p2 (is_ip_reserved native p1 ip) v1 e in
        let p3 = if is_ip_taken native p2 ip then release_address native p2 ip else p2 in
        let v3 = release_if-keeps p2 ip (is_ip_taken native p2 ip) v2 in
        subst P (ok-injective f) (removing p3 (erase_found eq_ip ip p3.included_addresses) ip v3)
    | inr absent ↦ subst P (ok-injective (rw (absent, exclude_ip) at h)) v
  ]

  pub exclude_ip_range-keeps :
      (fuel : ℕ) (p : AddressPool) (ip ip_end : Ipv4Address) (p' : AddressPool)
      → P p
      → exclude_ip_range native fuel p ip ip_end ≡ ok p'
      → P p'
  unfolding exclude_ip_range
  exclude_ip_range-keeps zero p ip ip_end p' v h = absurd (running≢ok h)
    where
      running≢ok : ◌≡◌ {A = Result AddressPool} running (ok p') → ⊥
      running≢ok e = cc
  exclude_ip_range-keeps (suc fuel) p ip ip_end p' v h = elim (Bool-cases (eq_ip ip ip_end)) [
    | inl e ↦ exclude_ip-keeps p ip_end p' v (rw (e, exclude_ip_range) at h)
    | inr e ↦
        let (q, f, g) = >>=-eq-ok (exclude_ip native p ip) _ (rw (e, exclude_ip_range) at h) in
        exclude_ip_range-keeps fuel q (increment native ip) ip_end p' (exclude_ip-keeps p ip q v f)
          g
  ]
