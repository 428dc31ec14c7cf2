-- ===== src/Tests/Datagrams.antt =====
-- dhcp/src/UdpListener.cpp on a short datagram, and common/src/TcoListener.cpp with two clients.
use klevret.Prelude.{◌==◌, if◌then◌else◌, refl, false}
use klevret.TcpListener.{TcpListener, on_read, get_next_packet}
use klevret.TcpListener.Clients.{
  Log, TcpReach, started, reads, takes, update, read_of, packets, TcpReach-streams,
}
use klevret.Prelude.{ℕ, ◌*◌, ◌-◌, ◌≡◌, arith, List, [], ◌∷◌, ◌++◌, length, replicate}
use klevret.UdpListener.{divide, packets_count}
use klevret.UdpListener.Fragments.{joined, Numbered, divide-joined, divide-Numbered}

abbrev datagram : List ℕ
datagram = 69 ∷ 0 ∷ 4 ∷ []

abbrev long_datagram : List ℕ
long_datagram = replicate 1500 7

divide-joined_example :
    joined (divide long_datagram)
    ≡ long_datagram ++ replicate (packets_count long_datagram * 1024 - length long_datagram) 0
divide-joined_example = divide-joined long_datagram

divide-Numbered_example : Numbered 0 (divide datagram)
divide-Numbered_example = divide-Numbered datagram (omega arith)

-- The streams of two clients: the first is read in two parts.
abbrev streams : ℕ → List ℕ
streams c = if c == 1 then 10 ∷ 11 ∷ 12 ∷ [] else if c == 2 then 20 ∷ [] else []

abbrev log : Log
log = (1, 10 ∷ 11 ∷ []) ∷ (2, 20 ∷ []) ∷ []

abbrev left : ℕ → List ℕ
left = update 2 [] (update 1 (12 ∷ []) streams)

abbrev listener : List (List ℕ) → TcpListener
listener queue = record { stop_flag = false; queue = queue }

one_taken : TcpReach streams log left ((10 ∷ 11 ∷ []) ∷ []) (listener ((20 ∷ []) ∷ []))
unfolding on_read get_next_packet
one_taken =
    takes (10 ∷ 11 ∷ [])
      (reads 2 20 [] []
        (reads 1 10 (11 ∷ []) (12 ∷ []) (started {l = listener []} refl) refl refl refl refl) refl
        refl refl refl)
      refl refl

TcpReach-streams_example :
    ((client : ℕ) → read_of client log ++ left client ≡ streams client)
    × (packets log ≡ ((10 ∷ 11 ∷ []) ∷ []) ++ ((20 ∷ []) ∷ []))
TcpReach-streams_example = TcpReach-streams one_taken
