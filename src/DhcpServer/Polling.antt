-- ===== src/DhcpServer/Polling.antt =====
-- dhcp/src/DhcpServer.cpp, `main_loop` with the input queue of dhcp/src/UdpListener.cpp: the thread of
-- the queue, the loop, and the calls that add pools take turns.
pub mod Order
use klevret.Prelude.{
  ℕ, ◌≡◌, refl, sym, ap, ◌∙◌, not, if◌then◌else◌, List, [], ◌∷◌, ◌++◌, Option, some, none,
}
use klevret.Prelude.{
  append_assoc, append-nil, Bool, true, false, Bool-cases, inl, inr, Result, ok, undefined, ◌>>=◌,
  >>=-eq-ok, ok-injective,
}
use klevret.Endians.{Endian}
use klevret.IpAddress.{Ipv4Address}
use klevret.AddressPool.{AddressPool, make_pool}
use klevret.UdpListener.Queue.{
  UdpServer, Received, pushed, receive, is_input_queue_blank, get_next_datagram,
}
use klevret.DhcpServer.{
  DhcpServer, Xids, UdpPacketWithInfo, Outcome, have_free_address, add_address_pool,
  main_loop_round,
}
use klevret.DhcpServer.Sending.{Network, sending_round}

-- What main_loop keeps, and all that was sent, latest first.
pub record Service : Type 0 where
  pub server : DhcpServer
  pub xids : Xids
  pub sent : List (List ℕ × Ipv4Address)

-- What happens to the server: a datagram is answered, or a pool is added.
pub data Event : Type 0 where
  datagram : UdpPacketWithInfo → Event
  pool : AddressPool → Event

-- The datagrams of the events, the first in front.
unfoldable pub datagrams : List Event → List UdpPacketWithInfo
datagrams [] = []
datagrams (datagram p ∷ events) = datagrams events ++ (p ∷ [])
datagrams (pool p ∷ events) = datagrams events

module _ (network : Network) (native : Endian) where
  -- A round of `while(true)` on a datagram.
  abbrev pub on_datagram : Service → UdpPacketWithInfo → Result Service
  on_datagram s p = do
    out ← sending_round network native s.server s.xids (some p)
    ok (record { server = out.0; xids = out.1; sent = out.2 ++ s.sent })

  -- A round of `while(true)`: without a pool or a datagram it takes nothing from the queue.
  unfoldable pub poll : Service → UdpServer → Result (Service × UdpServer)
  poll s l =
      if not (have_free_address native s.server)
      then ok (s, l)
      else if is_input_queue_blank l
      then ok (s, l)
      else (do taken ← get_next_datagram l; s' ← on_datagram s taken.0; ok (s', taken.1))

abbrev pub after_pool : Endian → Service → AddressPool → Service
after_pool native s p = record s { server = (add_address_pool native s.server p).1 }

-- One event after the other, the latest in front, without a queue: a datagram is answered by a whole
-- round, at a moment when the server has a pool.
pub data CarriesOut (network : Network) (native : Endian) (s_0 : Service)
    : List Event → Service → Type 0 where
  nothing : {s : Service} → s_0 ≡ s → CarriesOut network native s_0 [] s
  answers :
      (p : UdpPacketWithInfo) {events : List Event} {s s' : Service}
      → CarriesOut network native s_0 events s
      → have_free_address native s.server ≡ true
      → on_datagram network native s p ≡ ok s'
      → CarriesOut network native s_0 (datagram p ∷ events) s'
  adds :
      (p : AddressPool) {events : List Event} {s s' : Service}
      → CarriesOut network native s_0 events s
      → after_pool native s p ≡ s'
      → CarriesOut network native s_0 (pool p ∷ events) s'
