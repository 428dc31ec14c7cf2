-- ===== src/DhcpServer/Sending.antt =====
-- dhcp/src/UdpListener.cpp, `broadcast_send_to`, and the rounds of `main_loop` that call it. What the
-- system answers is a parameter.
pub mod Answers
use klevret.Prelude.{
  ℕ, ◌==◌, not, Bool, true, List, [], ◌∷◌, Option, some, none, Result, ok, throw, throw_if,
}
use klevret.Prelude.{◌>>=◌, ◌>>◌, system_call_failed}
use klevret.Endians.{Endian}
use klevret.IpAddress.{Ipv4Address}
use klevret.DhcpServer.{DhcpServer, Xids, UdpPacketWithInfo, Outcome, main_loop_round}

-- Whether `socket` and `setsockopt` succeed, and what `sendto` gives for some bytes to an address; none
-- stands for -1.
pub record Network : Type 0 where
  pub can_open : Bool
  pub can_broadcast : Bool
  pub sendto : List ℕ → Ipv4Address → Option ℕ

-- `sent <= 0`
abbrev pub nothing_sent : Option ℕ → Bool
nothing_sent none = true
nothing_sent (some sent) = sent == 0

module _ (network : Network) where
  unfoldable pub broadcast_send_to : List ℕ → Ipv4Address → Result (List ℕ × Ipv4Address)
  broadcast_send_to datagram dst_broadcast_ip = do
    throw_if (not network.can_open) system_call_failed
    throw_if (not network.can_broadcast) system_call_failed
    throw_if (nothing_sent (network.sendto datagram dst_broadcast_ip)) system_call_failed
    ok (datagram, dst_broadcast_ip)

  unfoldable pub send_all : List (List ℕ × Ipv4Address) → Result (List (List ℕ × Ipv4Address))
  send_all [] = ok []
  send_all ((datagram, ip) ∷ replies) = do
    sent ← broadcast_send_to datagram ip
    others ← send_all replies
    ok (sent ∷ others)

  -- A round of `main_loop` with the sending of its reply, which is the last that the round does: an
  -- exception ends `main_loop`, since nothing catches it.
  unfoldable pub sending_round :
      (native : Endian) → DhcpServer → Xids → Option UdpPacketWithInfo → Result (Outcome native)
  sending_round native s xids packet = do
    out ← main_loop_round native s xids packet
    sent ← send_all out.2
    ok (out.0, out.1, sent)
