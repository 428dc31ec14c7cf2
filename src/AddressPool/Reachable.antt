-- ===== src/AddressPool/Reachable.antt =====
-- dhcp/src/AddressPool.cpp: the pools that calls of the methods reach from a new one.
use klevret.Prelude.{ℕ, subst, ◌≡◌, refl, sym, ap, ◌∙◌, true, List, []}
use klevret.Prelude.{some, eq_of_some}
use klevret.Prelude.{ok, ok-injective, >>=-eq-ok}
use klevret.Prelude.Order.{same}
use klevret.Prelude.Map.{find, find-same}
use klevret.Endians.{Endian}
use klevret.IpAddress.{Ipv4Address}
use klevret.IpAddress.Laws.{ip_order}
use klevret.HardwareAddress.{MacAddress}
use klevret.DhcpOption.{DhcpOption}
use klevret.AddressPool.{AddressPool, reserve_ip, unreserve_ip, exclude_ip, make_pool}
use klevret.AddressPool.{
  exclude_ip_range, get_address, erase_cached, fill, set_option, remove_option, assign_option,
  erase_option,
}
use klevret.AddressPool.{release_address}
use klevret.AddressPool.Invariant.{IsConsistent, held_by}
use klevret.AddressPool.Exclusion.{exclude_ip-keeps, exclude_ip_range-keeps}
use klevret.AddressPool.Methods.{reserve_ip-IsConsistent, unreserve_ip-IsConsistent}
use klevret.AddressPool.Selection.{get_address-IsConsistent}

pub make_pool-IsConsistent :
    (native : Endian) (fuel : ℕ) (start_ip end_ip : Ipv4Address) (p : AddressPool)
    → make_pool native fuel start_ip end_ip ≡ ok p
    → IsConsistent native p
unfolding make_pool find
make_pool-IsConsistent native fuel start_ip end_ip p h =
    let (included, e, f) = >>=-eq-ok (fill native fuel start_ip end_ip []) _ h in
    subst (IsConsistent native) (ok-injective f) (record {
      held = λ m ip k. cc;
      reserved = λ m ip k. cc;
      kept = λ m n ip k l. cc;
      no_cache = refl;
    })

-- The cache and the included addresses may change.
pub with_sets :
    (native : Endian) (p : AddressPool) (included : List Ipv4Address) (ip : Ipv4Address)
    → IsConsistent native p
    → IsConsistent native
        (record p { cache = erase_cached ip p.cache; included_addresses = included })
unfolding erase_cached
with_sets native p included ip v = record {
  held = v.held;
  reserved = v.reserved;
  kept = v.kept;
  no_cache = ap (erase_cached ip) v.no_cache;
}

pub with_excluded :
    (native : Endian) (p : AddressPool) (excluded : List Ipv4Address)
    → IsConsistent native p
    → IsConsistent native (record p { excluded_addresses = excluded })
with_excluded native p excluded v = record {
  held = v.held;
  reserved = v.reserved;
  kept = v.kept;
  no_cache = v.no_cache;
}

unreserved :
    (native : Endian) (p : AddressPool) (ip : Ipv4Address) (p' : AddressPool)
    → IsConsistent native p
    → unreserve_ip native p ip ≡ ok p'
    → IsConsistent native p'
unreserved native p ip p' v h = unreserve_ip-IsConsistent native p v ip p' h

-- One call of a method, by any user of the pool.
pub data Step (native : Endian) : AddressPool → AddressPool → Type 0 where
  reserve :
      (ip : Ipv4Address) (mac : MacAddress) {p p' : AddressPool}
      → reserve_ip native p ip mac ≡ ok p'
      → Step native p p'
  unreserve :
      (ip : Ipv4Address) {p p' : AddressPool} → unreserve_ip native p ip ≡ ok p' → Step native p p'
  exclude :
      (ip : Ipv4Address) {p p' : AddressPool} → exclude_ip native p ip ≡ ok p' → Step native p p'
  exclude_range :
      (fuel : ℕ) (ip_start ip_end : Ipv4Address) {p p' : AddressPool}
      → exclude_ip_range native fuel p ip_start ip_end ≡ ok p'
      → Step native p p'
  get :
      (mac : MacAddress) (ip : Ipv4Address) {p p' : AddressPool}
      → get_address native p mac ≡ ok (ip, p')
      → Step native p p'
  release :
      (ip : Ipv4Address) {p p' : AddressPool} → release_address native p ip ≡ p' → Step native p p'
  set_an_option : (o : DhcpOption) {p p' : AddressPool} → set_option p o ≡ p' → Step native p p'
  remove_an_option : (n : ℕ) {p p' : AddressPool} → remove_option p n ≡ p' → Step native p p'

pub data Reach (native : Endian) : AddressPool → Type 0 where
  made :
      (fuel : ℕ) (start_ip end_ip : Ipv4Address) {p : AddressPool}
      → make_pool native fuel start_ip end_ip ≡ ok p
      → Reach native p
  next : {p p' : AddressPool} → Reach native p → Step native p p' → Reach native p'

pub with_options :
    (native : Endian) (p : AddressPool) (options : List (ℕ × DhcpOption))
    → IsConsistent native p
    → IsConsistent native (record p { options = options })
with_options native p options v = record {
  held = v.held;
  reserved = v.reserved;
  kept = v.kept;
  no_cache = v.no_cache;
}

-- Every method keeps a pool consistent.
pub Step-IsConsistent :
    (native : Endian) {p p' : AddressPool}
    → IsConsistent native p
    → Step native p p'
    → IsConsistent native p'
Step-IsConsistent native v (reserve ip mac {p} {p'} h) =
    reserve_ip-IsConsistent native p v ip mac p' h
Step-IsConsistent native v (unreserve ip {p} {p'} h) = unreserve_ip-IsConsistent native p v ip p' h
Step-IsConsistent native v (exclude ip {p} {p'} h) =
    exclude_ip-keeps native (IsConsistent native) (unreserved native) (with_excluded native)
      (with_sets native) p ip p' v h
Step-IsConsistent native v (exclude_range fuel a b {p} {p'} h) =
    exclude_ip_range-keeps native (IsConsistent native) (unreserved native) (with_excluded native)
      (with_sets native) fuel p a b p' v h
Step-IsConsistent native v (get mac ip {p} {p'} h) =
    (get_address-IsConsistent native p mac ip p' v h).0
Step-IsConsistent native v (release ip {p} {p'} h) = subst (IsConsistent native) h v
Step-IsConsistent native v (set_an_option o {p} {p'} h) =
    subst (IsConsistent native) h
      (with_options native p (assign_option o.description.code o p.options) v)
Step-IsConsistent native v (remove_an_option n {p} {p'} h) =
    subst (IsConsistent native) h (with_options native p (erase_option n p.options) v)

pub Reach-IsConsistent :
    (native : Endian) {p : AddressPool} → Reach native p → IsConsistent native p
Reach-IsConsistent native (made fuel start_ip end_ip {p} h) =
    make_pool-IsConsistent native fuel start_ip end_ip p h
Reach-IsConsistent native (next r s) = Step-IsConsistent native (Reach-IsConsistent native r) s

-- In a pool that any calls of its methods lead to from a new one, two clients that hold addresses
-- of one value are one client.
pub Reach-exclusive :
    (native : Endian) (p : AddressPool) (m n : MacAddress) (a b : Ipv4Address)
    → Reach native p
    → held_by p m ≡ some a
    → held_by p n ≡ some b
    → same (ip_order native) a b ≡ true
    → n ≡ m
Reach-exclusive native p m n a b r k l s =
    let v = Reach-IsConsistent native r in
    eq_of_some (
      sym (v.held n b l)
      ∙ (sym (find-same (ip_order native) a b p.taken_ip_addresses s) ∙ v.held m a k))
