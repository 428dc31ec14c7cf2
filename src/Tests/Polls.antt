-- ===== src/Tests/Polls.antt =====
-- dhcp/src/DhcpServer.cpp with its queue: a DISCOVER arrives before there is a pool.
use klevret.Prelude.{ℕ, ◌≡◌, refl, List, [], ◌∷◌, ◌++◌, ok, false}
use klevret.Endians.{little}
use klevret.DhcpServer.{UdpPacketWithInfo, have_free_address, add_address_pool, intersects_any}
use klevret.DhcpMessage.{write_header}
use klevret.UdpListener.Queue.{UdpServer, receive, get_next_datagram}
use klevret.DhcpServer.Polling.{Service, Event, datagrams, CarriesOut, poll, after_pool}
use klevret.DhcpServer.Polling.Order.{Runs, started, arrives, polls, pool_added, Runs-events}
use klevret.Tests.Pools.{new_pool}
use klevret.Tests.Servers.{ethernet, server, discover_packet, discover_round, discover_sent}
use klevret.DhcpServer.Sending.{Network, sending_round, send_all, broadcast_send_to}
use klevret.Prelude.{true, some}

-- A system whose `sendto` always succeeds.
abbrev network : Network
network = record { can_open = true; can_broadcast = true; sendto = λ datagram ip. some 1 }

abbrev start : Service
start = record {
  server = record { network_interfaces = ethernet ∷ []; address_pools = [] };
  xids = [];
  sent = [];
}

abbrev with_pool : Service
with_pool = record start { server = server }

abbrev answered : Service
answered = record {
  server = discover_round.0.0;
  xids = discover_round.0.1;
  sent = discover_round.0.2 ++ [];
}

abbrev queue_of : List UdpPacketWithInfo → UdpServer
queue_of packets = record { stop_flag = false; queue = packets }

discover_bytes : (b : ℕ) × (bytes : List ℕ) × (discover_packet.packet_data ≡ b ∷ bytes)
unfolding write_header
discover_bytes = (_, _, refl)

abbrev arrived_packet : UdpPacketWithInfo
arrived_packet = record { packet_data = discover_bytes.0 ∷ discover_bytes.1; interface_index = 2 }

waits : Runs network little start (arrived_packet ∷ []) (queue_of (arrived_packet ∷ [])) start
unfolding receive poll have_free_address
waits =
    polls (arrives discover_bytes.0 discover_bytes.1 2 {l = queue_of []} (started refl) refl refl)
      refl

pool_fits : after_pool little start new_pool ≡ with_pool
unfolding add_address_pool intersects_any
pool_fits = refl

answers :
    poll network little with_pool (queue_of (arrived_packet ∷ [])) ≡ ok (answered, queue_of [])
unfolding poll get_next_datagram have_free_address sending_round send_all broadcast_send_to
answers = rw (← discover_bytes.2, discover_round.1, discover_sent.1) refl

Runs-events_example :
    (events : List Event) × (datagrams events ++ [] ≡ arrived_packet ∷ [])
    × (CarriesOut network little start events answered)
Runs-events_example =
    Runs-events network little (polls (pool_added new_pool waits pool_fits) answers)
