-- ===== src/AddressPool/Careful.antt =====
-- dhcp/src/AddressPool.cpp: the maps stay together, where no client is given a second address.
use klevret.Prelude.{
  ℕ, subst, ◌≡◌, sym, ◌∙◌, none, ok, List, [], true, eq_of_some, >>=-eq-ok, ok-injective,
}
use klevret.Prelude.Map.{find}
use klevret.Prelude.Order.{same, same_refl}
use klevret.Endians.{Endian}
use klevret.IpAddress.{Ipv4Address}
use klevret.IpAddress.Laws.{ip_order}
use klevret.HardwareAddress.{MacAddress}
use klevret.DhcpOption.{DhcpOption}
use klevret.AddressPool.{
  AddressPool, get_address, unreserve_ip, erase_cached, assign_option, erase_option, make_pool,
  fill,
}
use klevret.AddressPool.Invariant.{IsConsistent, held_by, reserved_for}
use klevret.AddressPool.Methods.{some≢none}
use klevret.AddressPool.Selection.{Given, get_address-Given, get_address-IsConsistent}
use klevret.AddressPool.Exclusion.{exclude_ip-keeps, exclude_ip_range-keeps}
use klevret.AddressPool.Reachable.{
  Step, Reach, with_sets, with_excluded, with_options, make_pool-IsConsistent,
}
use klevret.AddressPool.Together.{
  IsTogether, reserve_ip-IsTogether, unreserve_ip-IsTogether, take_ip-IsTogether,
}

-- An address is reserved only for a client that holds none and has none reserved. The method does not ask
-- for this.
abbrev pub IsCareful : (native : Endian) {p p' : AddressPool} → Step native p p' → Type 0
IsCareful native (Step.reserve ip mac {p} h) = (reserved_for p mac ≡ none) × (held_by p mac ≡ none)
IsCareful native _ = Unit

module _ (native : Endian) where
  without_sets :
      (p : AddressPool) (included : List Ipv4Address) (ip : Ipv4Address)
      → IsTogether native p
      → IsTogether native
          (record p { cache = erase_cached ip p.cache; included_addresses = included })
  without_sets p included ip v = record {
    consistent = with_sets native p included ip v.consistent;
    taken = v.taken;
    reserved = v.reserved;
    own = v.own;
  }

  without_excluded :
      (p : AddressPool) (excluded : List Ipv4Address)
      → IsTogether native p
      → IsTogether native (record p { excluded_addresses = excluded })
  without_excluded p excluded v = record {
    consistent = with_excluded native p excluded v.consistent;
    taken = v.taken;
    reserved = v.reserved;
    own = v.own;
  }

  without_options :
      (p : AddressPool) (options : List (ℕ × DhcpOption))
      → IsTogether native p
      → IsTogether native (record p { options = options })
  without_options p options v = record {
    consistent = with_options native p options v.consistent;
    taken = v.taken;
    reserved = v.reserved;
    own = v.own;
  }

  unreserving :
      (p : AddressPool) (ip : Ipv4Address) (p' : AddressPool)
      → IsTogether native p
      → unreserve_ip native p ip ≡ ok p'
      → IsTogether native p'
  unreserving p ip p' v h = unreserve_ip-IsTogether native p v ip p' h

  get_address-IsTogether :
      (p : AddressPool) (mac : MacAddress) (ip : Ipv4Address) (p' : AddressPool)
      → IsTogether native p
      → get_address native p mac ≡ ok (ip, p')
      → IsTogether native p'
  get_address-IsTogether p mac ip p' v h =
      go (get_address-Given native p mac ip p' v.consistent.no_cache h)
        (get_address-IsConsistent native p mac ip p' v.consistent h).0
    where
      go : Given native p mac ip p' → IsConsistent native p' → IsTogether native p'
      go (Given.reserved r e) c = rw e (
          take_ip-IsTogether native p v mac ip (rw e at c) (λ b k. v.own mac ip b r k)
            (λ b k.
              subst (λ x. same (ip_order native) x ip ≡ true) (eq_of_some (sym r ∙ k))
                (same_refl (ip_order native) ip)))
      go (Given.held r t e) c = rw e v
      go (Given.fresh r t f e) c = rw e (
          take_ip-IsTogether native p v mac ip (rw e at c) (λ b k. absurd (some≢none t k))
            (λ b k. absurd (some≢none r k)))

make_pool-IsTogether :
    (native : Endian) (fuel : ℕ) (start_ip end_ip : Ipv4Address) (p : AddressPool)
    → make_pool native fuel start_ip end_ip ≡ ok p
    → IsTogether native p
unfolding make_pool find
make_pool-IsTogether native fuel start_ip end_ip p h =
    let (included, e, f) = >>=-eq-ok (fill native fuel start_ip end_ip []) _ h in
    subst (IsTogether native) (ok-injective f) (record {
      consistent =
          subst (IsConsistent native) (sym (ok-injective f))
            (make_pool-IsConsistent native fuel start_ip end_ip p h);
      taken = λ a m k. cc;
      reserved = λ a m k. cc;
      own = λ m a b k l. cc;
    })

-- A careful call keeps the maps together.
Step-IsTogether :
    (native : Endian) {p p' : AddressPool}
    → IsTogether native p
    → (s : Step native p p') → IsCareful native s
    → IsTogether native p'
Step-IsTogether native v (Step.reserve ip mac {p} {p'} h) (r, t) =
    reserve_ip-IsTogether native p v ip mac p' r t h
Step-IsTogether native v (Step.unreserve ip {p} {p'} h) c = unreserving native p ip p' v h
Step-IsTogether native v (Step.exclude ip {p} {p'} h) c =
    exclude_ip-keeps native (IsTogether native) (unreserving native) (without_excluded native)
      (without_sets native) p ip p' v h
Step-IsTogether native v (Step.exclude_range fuel a b {p} {p'} h) c =
    exclude_ip_range-keeps native (IsTogether native) (unreserving native) (without_excluded native)
      (without_sets native) fuel p a b p' v h
Step-IsTogether native v (Step.get mac ip {p} {p'} h) c =
    get_address-IsTogether native p mac ip p' v h
Step-IsTogether native v (Step.release ip {p} {p'} h) c = subst (IsTogether native) h v
Step-IsTogether native v (Step.set_an_option o {p} {p'} h) c =
    subst (IsTogether native) h
      (without_options native p (assign_option o.description.code o p.options) v)
Step-IsTogether native v (Step.remove_an_option n {p} {p'} h) c =
    subst (IsTogether native) h (without_options native p (erase_option n p.options) v)

abbrev pub AreCareful : (native : Endian) {p : AddressPool} → Reach native p → Type 0
AreCareful native (Reach.made fuel start_ip end_ip h) = Unit
AreCareful native (Reach.next r s) = AreCareful native r × IsCareful native s

-- In a pool that calls of its methods lead to from a new one, the map of addresses has a client at an
-- address exactly where the map of clients has an address of the same value for that client, both for the
-- taken and for the reserved ones, and a client with a reservation holds no other address: as long as
-- `reserve_ip` is called only for clients that hold no address and have no reservation, which the method
-- does not test.
pub Reach-IsTogether :
    (native : Endian) {p : AddressPool} (r : Reach native p)
    → AreCareful native r
    → IsTogether native p
Reach-IsTogether native (Reach.made fuel start_ip end_ip {p} h) c =
    make_pool-IsTogether native fuel start_ip end_ip p h
Reach-IsTogether native (Reach.next r s) (c, d) =
    Step-IsTogether native (Reach-IsTogether native r c) s d
