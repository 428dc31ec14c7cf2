-- ===== src/DhcpServer/Polling/Order.antt =====
-- dhcp/src/DhcpServer.cpp and UdpListener.cpp: the order in which datagrams are answered.
use klevret.Prelude.{ℕ, ◌≡◌, refl, sym, ap, ◌∙◌, not, List, [], ◌∷◌, ◌++◌, Option, some, none}
use klevret.Prelude.{append_assoc, false, Bool-cases, inl, inr, ok, >>=-eq-ok, ok-injective}
use klevret.Endians.{Endian}
use klevret.AddressPool.{AddressPool}
use klevret.UdpListener.Queue.{UdpServer, Received, receive, get_next_datagram}
use klevret.DhcpServer.{UdpPacketWithInfo, have_free_address}
use klevret.Prelude.{◌⊎◌}
use klevret.DhcpServer.Sending.{Network}
use klevret.Prelude.{subst, arith, true}
use klevret.DhcpServer.Polling.{
  Service, on_datagram, poll, Event, datagram, pool, after_pool, CarriesOut, datagrams,
}

-- The datagrams that have arrived, the queue and the server, from a server with an empty queue on. What
-- fails or is empty does not arrive.
pub data Runs (network : Network) (native : Endian) (s_0 : Service)
    : List UdpPacketWithInfo → UdpServer → Service → Type 0 where
  started : {l : UdpServer} → l.queue ≡ [] → Runs network native s_0 [] l s_0
  arrives :
      (b : ℕ) (bytes : List ℕ) (index : ℕ) {arrived arrived' : List UdpPacketWithInfo}
      {l l' : UdpServer} {s : Service}
      → Runs network native s_0 arrived l s
      → receive l (some (record { buffer = b ∷ bytes; ipi_ifindex = some index })) ≡ ok l'
      → arrived ++ (record { packet_data = b ∷ bytes; interface_index = index } ∷ []) ≡ arrived'
      → Runs network native s_0 arrived' l' s
  nothing_arrives :
      (r : Option Received) {arrived : List UdpPacketWithInfo} {l l' : UdpServer} {s : Service}
      → Runs network native s_0 arrived l s
      → (r ≡ none) ⊎ ((index : Option ℕ) × (r ≡ some (record { buffer = []; ipi_ifindex = index })))
      → receive l r ≡ ok l'
      → Runs network native s_0 arrived l' s
  polls :
      {arrived : List UdpPacketWithInfo} {l l' : UdpServer} {s s' : Service}
      → Runs network native s_0 arrived l s
      → poll network native s l ≡ ok (s', l')
      → Runs network native s_0 arrived l' s'
  pool_added :
      (p : AddressPool) {arrived : List UdpPacketWithInfo} {l : UdpServer} {s s' : Service}
      → Runs network native s_0 arrived l s
      → after_pool native s p ≡ s'
      → Runs network native s_0 arrived l s'

module _ (network : Network) (native : Endian) where
  -- What a round of the loop does: nothing, or the first datagram of the queue.
  data Polled (s : Service) (l : UdpServer) (s' : Service) (l' : UdpServer) : Type 0 where
    idle : s' ≡ s → l' ≡ l → Polled s l s' l'
    takes :
        (p : UdpPacketWithInfo)
        → l.queue ≡ p ∷ l'.queue
        → have_free_address native s.server ≡ true
        → on_datagram network native s p ≡ ok s'
        → Polled s l s' l'

  poll-Polled :
      (s s' : Service) (l l' : UdpServer) → poll network native s l ≡ ok (s', l') → Polled s l s' l'
  unfolding poll get_next_datagram
  poll-Polled s s' l l' h = elim (Bool-cases (not (have_free_address native s.server))) [
    | inl e ↦
        let same = ok-injective (rw (e, poll) at h) in
        idle (sym (ap (λ (x : Service × UdpServer). x.0) same))
          (sym (ap (λ (x : Service × UdpServer). x.1) same))
    | inr e ↦ front l.queue e h
  ]
    where
      serving :
          not (have_free_address native s.server) ≡ false → have_free_address native s.server ≡ true
      serving e = ground arith

      front :
          (queue : List UdpPacketWithInfo)
          → not (have_free_address native s.server) ≡ false
          → poll network native s (record l { queue = queue }) ≡ ok (s', l')
          → Polled s (record l { queue = queue }) s' l'
      front [] e k =
          let same = ok-injective (rw (e, poll) at k) in
          idle (sym (ap (λ (x : Service × UdpServer). x.0) same))
            (sym (ap (λ (x : Service × UdpServer). x.1) same))
      front (p ∷ queue) e k =
          let (after, f, g) = >>=-eq-ok (on_datagram network native s p) _ (rw (e, poll) at k) in
          let same = ok-injective g in
          takes p (ap (λ (x : Service × UdpServer). p ∷ x.1.queue) same) (serving e)
            (f ∙ ap (λ (x : Service × UdpServer). ok x.0) same)

  receive_nothing :
      (l l' : UdpServer) (r : Option Received)
      → (r ≡ none) ⊎ ((index : Option ℕ) × (r ≡ some (record { buffer = []; ipi_ifindex = index })))
      → receive l r ≡ ok l'
      → l' ≡ l
  unfolding receive
  receive_nothing l l' r (inl e) h = sym (ok-injective (rw (e, receive) at h))
  receive_nothing l l' r (inr (index, e)) h = sym (ok-injective (rw (e, receive) at h))

  -- At every moment of a run in which the sends succeed, the server is as after some events, carried out
  -- one at a time from the start without a queue, and has sent the same replies. The datagrams of these
  -- events, followed by those in the queue, are the ones that have arrived, in the order of their arrival,
  -- and each of the former was handled by a whole round at a moment when the server had a pool. So no
  -- datagram is dropped while there is no pool, or is handled twice or before an earlier one, however the
  -- thread, the loop and the added pools take turns.
  pub Runs-events :
      {s_0 : Service} {arrived : List UdpPacketWithInfo} {l : UdpServer} {s : Service}
      → Runs network native s_0 arrived l s
      → (events : List Event) × (datagrams events ++ l.queue ≡ arrived)
        × (CarriesOut network native s_0 events s)
  unfolding datagrams receive
  Runs-events (started e) = ([], e, CarriesOut.nothing refl)
  Runs-events (arrives b bytes index {arrived = arrived_0} {l = l_0} r h e) =
      let (events, order, result) = Runs-events r in
      let p : UdpPacketWithInfo = record { packet_data = b ∷ bytes; interface_index = index } in
      (
        events,
        ap (λ (x : UdpServer). datagrams events ++ x.queue) (sym (ok-injective h))
            ∙ sym (append_assoc (datagrams events) l_0.queue (p ∷ []))
            ∙ ap (λ x. x ++ (p ∷ [])) order
            ∙ e,
        result,
      )
  Runs-events (nothing_arrives x r w h) =
      let (events, order, result) = Runs-events r in
      (
        events,
        ap (λ (x : UdpServer). datagrams events ++ x.queue) (receive_nothing _ _ x w h) ∙ order,
        result,
      )
  Runs-events (polls {l = l_0} {s = s_1} r h) =
      let (events, order, result) = Runs-events r in
      elim (poll-Polled s_1 _ l_0 _ h) [
        | idle e f ↦ (
          events,
          ap (λ (x : UdpServer). datagrams events ++ x.queue) f ∙ order,
          subst (CarriesOut network native _ events) (sym e) result,
        )
        | takes p e g f ↦ (
          datagram p ∷ events,
          append_assoc (datagrams events) (p ∷ []) _
              ∙ ap (λ x. datagrams events ++ x) (sym e)
              ∙ order,
          CarriesOut.answers p result g f,
        )
      ]
  Runs-events (pool_added p r e) =
      let (events, order, result) = Runs-events r in
      (pool p ∷ events, order, CarriesOut.adds p result e)
