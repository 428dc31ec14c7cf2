-- ===== src/DhcpServer/Traffic.antt =====
-- dhcp/src/DhcpServer.cpp: everything that a server has sent, over any rounds of `main_loop` with
-- any pools added between them.
use klevret.Prelude.{ℕ, ◌≡◌, refl, sym, ap, ◌∙◌, subst, Bool-cases, inl, inr, true}
use klevret.Prelude.{List, [], ◌∷◌, ◌++◌, All, All-append, Any, Option, some, none}
use klevret.Prelude.{ok, >>=-eq-ok, ok-injective, eq_of_some}
use klevret.Prelude.Order.{same}
use klevret.Prelude.Map.{find-same}
use klevret.Endians.{Endian}
use klevret.IpAddress.{Ipv4Address}
use klevret.IpAddress.Laws.{ip_order}
use klevret.HardwareAddress.{MacAddress}
use klevret.DhcpMessage.{DhcpMessage, write_header}
use klevret.AddressPool.{AddressPool, make_pool, fill}
use klevret.AddressPool.Reachable.{make_pool-IsConsistent}
use klevret.DhcpServer.{
  DhcpServer, Xids, NetworkInterface, UdpPacketWithInfo, Outcome, add_address_pool,
}
use klevret.DhcpServer.{intersects_any, main_loop_round, dhcp_offer, dhcp_ack}
use klevret.DhcpServer.Replies.{reply_header, reply_options}
use klevret.DhcpServer.Effects.{Effect, main_loop_round-Effect}
use klevret.DhcpServer.Holding.{
  offer_of, Holds, Backed, AreBacked, IsServing, take_address-keeps, AreBacked-mono,
}

-- A server from its start on, the ids of `main_loop`, and the datagrams sent, latest first.
pub data ServerReach (native : Endian)
    : DhcpServer → Xids → List (List ℕ × Ipv4Address) → Type 0 where
  started :
      (interfaces : List NetworkInterface) {s : DhcpServer}
      → s ≡ record { network_interfaces = interfaces; address_pools = [] }
      → ServerReach native s [] []
  pool_added :
      (fuel : ℕ) (start_ip end_ip : Ipv4Address) (p : AddressPool) {s s' : DhcpServer} {xids : Xids}
      {sent : List (List ℕ × Ipv4Address)}
      → ServerReach native s xids sent
      → make_pool native fuel start_ip end_ip ≡ ok p
      → (add_address_pool native s p).1 ≡ s'
      → ServerReach native s' xids sent
  round :
      (packet : Option UdpPacketWithInfo) (out : Outcome native) {s s' : DhcpServer}
      {xids xids' : Xids} {sent sent' : List (List ℕ × Ipv4Address)}
      → ServerReach native s xids sent
      → main_loop_round native s xids packet ≡ ok out
      → out.0 ≡ s'
      → out.1 ≡ xids'
      → out.2 ++ sent ≡ sent'
      → ServerReach native s' xids' sent'

module _ (native : Endian) where
  pub offer_of-offer :
      (packet : DhcpMessage) (mac : MacAddress) (ip : Ipv4Address)
      → offer_of (reply_header native packet mac ip ++ reply_options native dhcp_offer)
        ≡ some (mac, ip)
  unfolding write_header
  offer_of-offer packet mac ip = refl

  offer_of-ack :
      (packet : DhcpMessage) (mac : MacAddress) (ip : Ipv4Address)
      → offer_of (reply_header native packet mac ip ++ reply_options native dhcp_ack) ≡ none
  unfolding write_header
  offer_of-ack packet mac ip = refl

  record IsBacked (s : DhcpServer) (sent : List (List ℕ × Ipv4Address)) : Type 0 where
    serving : All (IsServing native) s.address_pools
    backed : AreBacked s.address_pools sent

  Effect-IsBacked :
      (s : DhcpServer) (sent : List (List ℕ × Ipv4Address)) (out : Outcome native)
      → IsBacked s sent
      → Effect native s out
      → IsBacked out.0 (out.2 ++ sent)
  Effect-IsBacked s sent out v (Effect.quiet e f) = rw (e, f) v
  Effect-IsBacked s sent out v (Effect.acknowledges packet mac ip b e f) =
      rw (e, f)
        (record {
          serving = v.serving;
          backed = (subst (Backed s.address_pools) (sym (offer_of-ack packet mac ip)) tt, v.backed);
        })
  Effect-IsBacked s sent out v (Effect.offers packet mac ip b t f) =
      let (serving, held, keeps) = take_address-keeps native s mac ip out.0 v.serving t in
      rw f (record {
        serving = serving;
        backed = (
          subst (Backed out.0.address_pools) (sym (offer_of-offer packet mac ip)) held,
          AreBacked-mono s.address_pools out.0.address_pools sent keeps v.backed,
        );
      })

  make_pool-IsServing :
      (fuel : ℕ) (start_ip end_ip : Ipv4Address) (p : AddressPool)
      → make_pool native fuel start_ip end_ip ≡ ok p
      → IsServing native p
  unfolding make_pool
  make_pool-IsServing fuel start_ip end_ip p h =
      let (included, e, f) = >>=-eq-ok (fill native fuel start_ip end_ip []) _ h in
      record {
        consistent = make_pool-IsConsistent native fuel start_ip end_ip p h;
        unreserved = ap (λ (q : AddressPool). q.reserved_mac_addresses) (sym (ok-injective f));
      }

  Holds-append :
      (pools : List AddressPool) (p : AddressPool) (m : MacAddress) (a : Ipv4Address)
      → Holds pools m a
      → Holds (pools ++ (p ∷ [])) m a
  Holds-append [] p m a h = elim h [ ]
  Holds-append (q ∷ pools) p m a h = h

  add_address_pool-IsBacked :
      (s : DhcpServer) (sent : List (List ℕ × Ipv4Address)) (p : AddressPool)
      → IsBacked s sent
      → IsServing native p
      → IsBacked (add_address_pool native s p).1 sent
  unfolding add_address_pool
  add_address_pool-IsBacked s sent p v w =
      elim (Bool-cases (intersects_any native p s.address_pools)) [
        | inl e ↦ rw (e, add_address_pool) v
        | inr e ↦
            rw (e, add_address_pool)
              (record {
                serving = All-append (IsServing native) s.address_pools (p ∷ []) v.serving (w, tt);
                backed =
                    AreBacked-mono s.address_pools (s.address_pools ++ (p ∷ [])) sent
                      (Holds-append s.address_pools p) v.backed;
              })
      ]

  ServerReach-IsBacked :
      {s : DhcpServer} {xids : Xids} {sent : List (List ℕ × Ipv4Address)}
      → ServerReach native s xids sent
      → IsBacked s sent
  ServerReach-IsBacked (started interfaces e) = rw e (record { serving = tt; backed = tt })
  ServerReach-IsBacked (pool_added fuel a b p {s} {sent = sent} r h e) =
      subst (λ k. IsBacked k sent) e
        (add_address_pool-IsBacked s sent p (ServerReach-IsBacked r)
          (make_pool-IsServing fuel a b p h))
  ServerReach-IsBacked (round packet out {s} {xids = xids} {sent = sent} r h e f g) =
      rw (← e, ← g)
        (Effect-IsBacked s sent out (ServerReach-IsBacked r)
          (main_loop_round-Effect native s xids packet out h))

  offer-Holds :
      (pools : List AddressPool) (sent : List (List ℕ × Ipv4Address)) (d : List ℕ) (m : MacAddress)
      (a : Ipv4Address)
      → AreBacked pools sent
      → Any (λ x. x.0 ≡ d) sent
      → offer_of d ≡ some (m, a)
      → Holds pools m a
  offer-Holds pools [] d m a b l o = elim l [ ]
  offer-Holds pools (x ∷ sent) d m a (b, bs) (inl e) o = subst (Backed pools) (ap offer_of e ∙ o) b
  offer-Holds pools (x ∷ sent) d m a (b, bs) (inr l) o = offer-Holds pools sent d m a bs l o

  one_holder :
      (pools : List AddressPool) (m n : MacAddress) (a b : Ipv4Address)
      → All (IsServing native) pools
      → Holds pools m a
      → Holds pools n b
      → same (ip_order native) a b ≡ true
      → m ≡ n
  one_holder [] m n a b v h k e = elim h [ ]
  one_holder (p ∷ pools) m n a b (v, vs) h k e = eq_of_some (
      sym (v.consistent.held m a h)
      ∙ find-same (ip_order native) a b p.taken_ip_addresses e
      ∙ v.consistent.held n b k)

  -- Of all the offers that a server has sent since its start, over any rounds and any pools added
  -- between them, no two offer addresses of one value to two clients.
  pub ServerReach-exclusive :
      (s : DhcpServer) (xids : Xids) (sent : List (List ℕ × Ipv4Address)) (d e : List ℕ)
      (m n : MacAddress) (a b : Ipv4Address)
      → ServerReach native s xids sent
      → Any (λ x. x.0 ≡ d) sent
      → Any (λ x. x.0 ≡ e) sent
      → offer_of d ≡ some (m, a)
      → offer_of e ≡ some (n, b)
      → same (ip_order native) a b ≡ true
      → m ≡ n
  ServerReach-exclusive s xids sent d e m n a b r i j o q k =
      let v = ServerReach-IsBacked r in
      one_holder s.address_pools m n a b v.serving
        (offer-Holds s.address_pools sent d m a v.backed i o)
        (offer-Holds s.address_pools sent e n b v.backed j q) k
