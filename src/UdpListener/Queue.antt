-- ===== src/UdpListener/Queue.antt =====
-- dhcp/src/UdpListener.cpp, UdpServer: the input queue, which a thread fills and the server empties.
-- What `recvmsg` gives is a parameter of a turn of the thread. The client's address, which nothing
-- reads, is left out.
use klevret.Prelude.{ℕ, Bool, true, false, List, [], ◌∷◌, ◌++◌, Option, some, none}
use klevret.Prelude.{Result, ok, undefined, ◌>>=◌}
use klevret.DhcpServer.{UdpPacketWithInfo}

pub record UdpServer : Type 0 where
  pub stop_flag : Bool
  pub queue : List UdpPacketWithInfo

-- The bytes in the buffer, and the interface that the control message IP_PKTINFO names, if there is
-- one.
pub record Received : Type 0 where
  pub buffer : List ℕ
  pub ipi_ifindex : Option ℕ

-- The packet that is pushed. Without a control message the index is copied before it is set.
abbrev pub pushed : List UdpPacketWithInfo → List ℕ → Option ℕ → Result (List UdpPacketWithInfo)
pushed queue bytes none = undefined
pushed queue bytes (some index) =
    ok (queue ++ (record { packet_data = bytes; interface_index = index } ∷ []))

-- The body of the loop of `thread_func`. A failed `recvmsg` is none; it is passed over, and so is a
-- datagram without a byte.
unfoldable pub receive : UdpServer → Option Received → Result UdpServer
receive l none = ok l
receive l (some r) = elim r.buffer [
  | [] ↦ ok l
  | b ∷ bytes ↦ do queue ← pushed l.queue (b ∷ bytes) r.ipi_ifindex; ok (record l { queue = queue })
]

abbrev pub is_input_queue_blank : UdpServer → Bool
is_input_queue_blank l = elim l.queue [ [] ↦ true | p ∷ queue ↦ false ]

-- `front` and `pop`, which are undefined on an empty queue.
unfoldable pub get_next_datagram : UdpServer → Result (UdpPacketWithInfo × UdpServer)
get_next_datagram l = elim l.queue [
  | [] ↦ undefined
  | p ∷ queue ↦ ok (p, record l { queue = queue })
]

unfoldable pub stop : UdpServer → UdpServer
stop l = record l { stop_flag = true }
