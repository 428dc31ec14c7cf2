-- ===== src/Api/Service.antt =====
-- dhcp/src/ApiServer.cpp and ApiHandlers.cpp: a request to the DHCP server.
use klevret.Prelude.{ℕ, Bool, true, false, List, [], text, eq_text, Option, some, none, Result, ok}
use klevret.Prelude.{◌>>=◌, if◌then◌else◌, caught, at}
use klevret.Json.{Json}
use klevret.Endians.{Endian}
use klevret.IpAddress.{of_string}
use klevret.AddressPool.{make_pool}
use klevret.DhcpServer.{DhcpServer, add_address_pool}
use klevret.Api.{ApiMessage, get}

pub data ApiHandler : Type 0 where
  dhcp_pool_create : ApiHandler
  dhcp_pool_list : ApiHandler

-- `api_handlers`
abbrev pub find_handler : List ℕ → Option ApiHandler
find_handler cmd =
    if eq_text cmd (text "dhcp.pool.create")
    then some dhcp_pool_create
    else if eq_text cmd (text "dhcp.pool.list")
    then some dhcp_pool_list
    else none

-- The text that `add_address_pool` writes to `error`.
abbrev pub error_text : Bool → List ℕ
error_text true = []
error_text false = text "Intersection of address pools"

-- `fuel` is for the loop of the pool's constructor.
module _ (boost : Json) (native : Endian) (fuel : ℕ) where
  unfoldable pub create_pool : DhcpServer → boost.Ptree → Result (boost.Ptree × DhcpServer)
  create_pool s request = do
    ip_start ← get boost (text "ip_start") request
    start ← of_string ip_start
    ip_end ← get boost (text "ip_end") request
    end ← of_string ip_end
    pool ← make_pool native fuel start end
    let (result, s') = add_address_pool native s pool
    let response = boost.put (text "status") (boost.of_bool result) boost.empty
    ok (boost.put (text "msg") (error_text result) response, s')

  abbrev pub list_pools : DhcpServer → boost.Ptree → Result (boost.Ptree × DhcpServer)
  list_pools s request = ok (boost.put (text "msg") (text "blank msg") boost.empty, s)

  abbrev pub run_api_handler :
      ApiHandler → DhcpServer → boost.Ptree → Result (boost.Ptree × DhcpServer)
  run_api_handler dhcp_pool_create s request = create_pool s request
  run_api_handler dhcp_pool_list s request = list_pools s request

  -- The body of the `try`: the reply, and the server.
  unfoldable pub answer : DhcpServer → ApiMessage boost → Result (ApiMessage boost × DhcpServer)
  answer s message = do
    cmd ← get boost (text "cmd") message.json
    handler ← at (find_handler cmd)
    (response, s') ← run_api_handler handler s message.json
    ok (record message { json = boost.put (text "cmd") cmd response }, s')

  -- A request that throws is not answered. Every `throw` comes before the change of the server.
  abbrev pub answered :
      DhcpServer → Option (ApiMessage boost × DhcpServer) → Option (ApiMessage boost) × DhcpServer
  answered s none = (none, s)
  answered s (some (reply, s')) = (some reply, s')

  unfoldable pub serve :
      DhcpServer → ApiMessage boost → Result (Option (ApiMessage boost) × DhcpServer)
  serve s message = do outcome ← caught (answer s message); ok (answered s outcome)
