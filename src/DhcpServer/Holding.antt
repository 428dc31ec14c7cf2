-- ===== src/DhcpServer/Holding.antt =====
-- dhcp/src/DhcpServer.cpp: the addresses that the clients of a server hold, and the offers among its
-- datagrams.
use klevret.Prelude.{ℕ, ◌≡◌, sym, ap, ◌∙◌, subst, ◌==◌, if◌then◌else◌, Bool-cases, inl, inr}
use klevret.Prelude.{List, [], ◌∷◌, take, drop, get_elem?, All, Option, some, none}
use klevret.Prelude.{ok, >>=-eq-ok, ok-injective}
use klevret.Prelude.Order.{same}
use klevret.Prelude.Map.{find, find-assign_ne, find-same}
use klevret.Endians.{Endian}
use klevret.IpAddress
use klevret.IpAddress.{Ipv4Address}
use klevret.HardwareAddress
use klevret.HardwareAddress.{MacAddress}
use klevret.HardwareAddress.Laws.{mac_order}
use klevret.AddressPool.{AddressPool, get_address}
use klevret.AddressPool.Invariant.{IsConsistent, held_by}
use klevret.AddressPool.Selection.{Given, get_address-Given, get_address-IsConsistent}
use klevret.DhcpServer.{DhcpServer}
use klevret.DhcpServer.{take_address, take_address_from, dhcp_offer}

-- The client and the address of a datagram, if the type of its message is DHCPOFFER. The type stands
-- behind the 236 bytes of the header, the cookie, the code 53 and a length.
abbrev pub offer_of : List ℕ → Option (MacAddress × Ipv4Address)
offer_of datagram = elim (get_elem? datagram 242) [
  | none ↦ none
  | some message_type ↦
      if message_type == dhcp_offer
      then some (
        HardwareAddress.with_data (take 6 (drop 28 datagram)),
        IpAddress.with_data (take 4 (drop 16 datagram)),
      )
      else none
]

-- The pool that gives out addresses is the first one.
abbrev pub Holds : List AddressPool → MacAddress → Ipv4Address → Type 0
Holds [] mac ip = ⊥
Holds (p ∷ pools) mac ip = held_by p mac ≡ some ip

abbrev pub Backed : List AddressPool → Option (MacAddress × Ipv4Address) → Type 0
Backed pools none = Unit
Backed pools (some (mac, ip)) = Holds pools mac ip

-- Every offer that was sent is of an address that its client holds.
abbrev pub AreBacked : List AddressPool → List (List ℕ × Ipv4Address) → Type 0
AreBacked pools = All (λ d. Backed pools (offer_of d.0))

pub AreBacked-mono :
    (pools pools' : List AddressPool) (sent : List (List ℕ × Ipv4Address))
    → ((m : MacAddress) (a : Ipv4Address) → Holds pools m a → Holds pools' m a)
    → AreBacked pools sent
    → AreBacked pools' sent
AreBacked-mono pools pools' [] k b = tt
AreBacked-mono pools pools' (d ∷ sent) k (b, bs) =
    (backed (offer_of d.0) b, AreBacked-mono pools pools' sent k bs)
  where
    backed : (o : Option (MacAddress × Ipv4Address)) → Backed pools o → Backed pools' o
    backed none x = tt
    backed (some (m, a)) x = k m a x

module _ (native : Endian) where
  -- A pool of a server: no method of the server reserves an address.
  pub record IsServing (p : AddressPool) : Type 0 where
    pub consistent : IsConsistent native p
    pub unreserved : p.reserved_mac_addresses ≡ []

  get_address-keeps :
      (p : AddressPool) (mac : MacAddress) (ip : Ipv4Address) (p' : AddressPool)
      → IsServing p
      → get_address native p mac ≡ ok (ip, p')
      → IsServing p'
        × ((m : MacAddress) (a : Ipv4Address) → held_by p m ≡ some a → held_by p' m ≡ some a)
  unfolding find
  get_address-keeps p mac ip p' v h =
      go (get_address-Given native p mac ip p' v.consistent.no_cache h)
    where
      still : IsConsistent native p'
      still = (get_address-IsConsistent native p mac ip p' v.consistent h).0

      go :
          Given native p mac ip p'
          → IsServing p'
            × ((m : MacAddress) (a : Ipv4Address) → held_by p m ≡ some a → held_by p' m ≡ some a)
      go (Given.reserved r e) = absurd (none≢some (sym (ap (find mac_order mac) v.unreserved) ∙ r))
        where
          none≢some : none ≡ some ip → ⊥
          none≢some q = cc
      go (Given.held r t e) = (subst IsServing (sym e) v, λ m a k. rw e k)
      go (Given.fresh r t f e) = (
        record {
          consistent = still;
          unreserved = ap (λ (q : AddressPool). q.reserved_mac_addresses) e ∙ v.unreserved;
        },
        λ m a k. elim (Bool-cases (same mac_order mac m)) [
          | inl s ↦ absurd (other (sym t ∙ (find-same mac_order mac m p.taken_mac_addresses s ∙ k)))
          | inr d ↦ rw e (find-assign_ne mac_order mac m ip p.taken_mac_addresses d ∙ k)
        ],
      )
        where
          other : {a : Ipv4Address} → none ≡ some a → ⊥
          other q = cc

  take_address_from-keeps :
      (pools : List AddressPool) (mac : MacAddress) (ip : Ipv4Address) (pools' : List AddressPool)
      → All IsServing pools
      → take_address_from native pools mac ≡ ok (ip, pools')
      → All IsServing pools'
        × Holds pools' mac ip
        × ((m : MacAddress) (a : Ipv4Address) → Holds pools m a → Holds pools' m a)
  unfolding take_address_from
  take_address_from-keeps [] mac ip pools' v h = cc
  take_address_from-keeps (p ∷ pools) mac ip pools' (v, vs) h =
      let ((ip', p'), e, f) = >>=-eq-ok (get_address native p mac) _ h in
      let same_ip : ip' ≡ ip = ap (λ (o : Ipv4Address × List AddressPool). o.0) (ok-injective f) in
      let same_pools : p' ∷ pools ≡ pools' =
        ap (λ (o : Ipv4Address × List AddressPool). o.1) (ok-injective f) in
      let (v', keeps) = get_address-keeps p mac ip' p' v e in
      let held = (get_address-IsConsistent native p mac ip' p' v.consistent e).1 in
      subst
        (λ k.
          All IsServing k
          × Holds k mac ip
          × ((m : MacAddress) (a : Ipv4Address) → Holds (p ∷ pools) m a → Holds k m a))
        same_pools ((v', vs), held ∙ ap some same_ip, keeps)

  pub take_address-keeps :
      (s : DhcpServer) (mac : MacAddress) (ip : Ipv4Address) (s' : DhcpServer)
      → All IsServing s.address_pools
      → take_address native s mac ≡ ok (ip, s')
      → All IsServing s'.address_pools
        × Holds s'.address_pools mac ip
        × ((m : MacAddress) (a : Ipv4Address)
            → Holds s.address_pools m a
            → Holds s'.address_pools m a)
  unfolding take_address
  take_address-keeps s mac ip s' v h =
      let ((ip', pools), e, f) = >>=-eq-ok (take_address_from native s.address_pools mac) _ h in
      let same_ip : ip' ≡ ip = ap (λ (o : Ipv4Address × DhcpServer). o.0) (ok-injective f) in
      let same_pools : pools ≡ s'.address_pools =
        ap (λ (o : Ipv4Address × DhcpServer). o.1.address_pools) (ok-injective f) in
      take_address_from-keeps s.address_pools mac ip s'.address_pools v
        (e ∙ ap (λ (o : Ipv4Address × List AddressPool). ok o) (λ i. (same_ip i, same_pools i)))
