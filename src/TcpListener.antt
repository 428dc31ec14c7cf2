-- ===== src/TcpListener.antt =====
-- common/src/TcoListener.cpp and TcpListener.hpp: the queue of packets, which the threads of the clients
-- fill. What `read` gives is a parameter; the sockets are left out.
pub mod Clients
use klevret.Prelude.{ℕ, Bool, true, false, List, [], ◌∷◌, ◌++◌, Option, some, none}
use klevret.Prelude.{Result, ok, throw, queue_is_empty}

pub record TcpListener : Type 0 where
  pub stop_flag : Bool
  pub queue : List (List ℕ)

-- What a round of `_client_handler_thread` does with the bytes of `read`: the listener, and whether the
-- loop goes on. A failed `read` is none.
unfoldable pub on_read : TcpListener → Option (List ℕ) → TcpListener × Bool
on_read l none = (l, false)
on_read l (some []) = (l, true)
on_read l (some (b ∷ bytes)) = (record l { queue = l.queue ++ ((b ∷ bytes) ∷ []) }, true)

abbrev pub is_empty : TcpListener → Bool
is_empty l = elim l.queue [ [] ↦ true | p ∷ queue ↦ false ]

unfoldable pub get_next_packet : TcpListener → Result (List ℕ × TcpListener)
get_next_packet l = elim l.queue [
  | [] ↦ throw queue_is_empty
  | p ∷ queue ↦ ok (p, record l { queue = queue })
]
