-- ===== src/Api/Exchange.antt =====
-- cli/src/command_handlers.cpp, common/src/ApiConnector.cpp, core/src/main.cpp and dhcp/src/ApiServer.cpp:
-- a request of the command line on its way to the DHCP server, and the reply on its way back.
pub mod Delivery
pub mod Outcomes
pub mod Failures
pub mod Line
use klevret.Prelude.{ℕ, Bool, List, Option, some, none, Result, ok, ◌>>=◌}
use klevret.Json.{Json}
use klevret.Endians.{Endian}
use klevret.DhcpServer.{DhcpServer}
use klevret.CommandLine.Handlers.{shown}
use klevret.Api.{ApiMessage, serialize, deserialize}
use klevret.Api.Relay.{relay}
use klevret.Api.Service.{serve}

module _ (boost : Json) where
  -- `send_cmd_and_get_reply` up to the call of `send`.
  unfoldable pub packet_of : boost.Ptree → Result (List ℕ)
  packet_of obj = do
    message ← deserialize boost (boost.write_json obj)
    ok (serialize boost message).0

-- `recv packet` is what one call of `recv` gives of a packet that was sent: any part of it, on a stream.
module _ (boost : Json) (recv : List ℕ → List ℕ) where
  -- The reply of the DHCP server through the core to the command line, which shows it. Without a reply
  -- the command line and the core go on waiting in `recv`.
  unfoldable pub come_back : Option (ApiMessage boost) → Result (Option (List ℕ × Bool))
  come_back none = ok none
  come_back (some reply) = do
    at_core ← deserialize boost (recv (serialize boost reply).0)
    at_cli ← deserialize boost (recv (serialize boost at_core).0)
    ok (some (shown boost at_cli.json))

module _ (boost : Json) (recv : List ℕ → List ℕ) (native : Endian) (fuel : ℕ) where
  abbrev pub at_service :
      DhcpServer → Option (ApiMessage boost) → Result (Option (List ℕ × Bool) × DhcpServer)
  at_service s none = ok (none, s)
  at_service s (some message) = do
    at_dhcp ← deserialize boost (recv (serialize boost message).0)
    (reply, s') ← serve boost native fuel s at_dhcp
    shown_reply ← come_back boost recv reply
    ok (shown_reply, s')

  -- What the command line shows of the reply to a request, and the server after it.
  unfoldable pub exchange : DhcpServer → boost.Ptree → Result (Option (List ℕ × Bool) × DhcpServer)
  exchange s obj = do
    packet ← packet_of boost obj
    at_core ← deserialize boost (recv packet)
    relayed ← relay boost at_core
    at_service s relayed
