-- ===== src/DhcpOption/Loop.antt =====
-- dhcp/src/DhcpOption.cpp: one turn of the constructor's `while`.
use klevret.Prelude.{ℕ, suc, ◌+◌, ◌-◌, ◌≡◌, Bool, true, false, List, drop, Result, ok}
use klevret.Prelude.{◌==◌, ◌>>=◌}
use klevret.Endians.{Endian}
use klevret.OptionDescription.{PayloadType}
use klevret.DhcpOption.{DhcpOption, element_size, process_element, payload_loop}

module _ (native : Endian) (fuel iter n : ℕ) (rest : List ℕ) (t : PayloadType)
    (o : DhcpOption) where
  -- At the end of the payload.
  pub payload_loop_done : (iter == n) ≡ true → payload_loop native (suc fuel) iter n rest t o ≡ ok o
  unfolding payload_loop
  payload_loop_done h = rw (h, payload_loop)

  -- What follows a round.
  abbrev pub after : Bool → DhcpOption → Result DhcpOption
  after again o1 = elim again [
    | true ↦ ok o1
    | false ↦ payload_loop native fuel (iter + element_size t) n (drop (element_size t) rest) t o1
  ]

  pub payload_loop_more :
      (iter == n) ≡ false
      → payload_loop native (suc fuel) iter n rest t o
        ≡ (process_element native t o (n - iter) rest >>= λ step. after step.0 step.1)
  unfolding payload_loop
  payload_loop_more h = rw (h, payload_loop)
