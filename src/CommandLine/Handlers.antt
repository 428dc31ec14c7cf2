-- ===== src/CommandLine/Handlers.antt =====
-- cli/src/command_handlers.cpp: the handlers of the commands, up to the request that they send, and what
-- is shown of the reply.
pub mod Safety
use klevret.Prelude.{
  ℕ, ◌==◌, not, Bool, true, false, List, [], ◌∷◌, ◌++◌, length, text, Option, some, none,
}
use klevret.Prelude.{Result, ok, throw, ◌>>=◌, ◌>>◌, throw_if, deref, get_elem?, drop}
use klevret.Prelude.{wrong_argument_count, bad_variant_access}
use klevret.IpAddress.{Ipv4Address}
use klevret.Json.{Json}
use klevret.CommandLine.Addresses.{to_string}
use klevret.CommandLine.Elements.{
  CommandElementRealValue, of_word, of_ip_v4_address, of_ip_v6_address,
}
use klevret.CommandLine.Elements.{of_ip_v4_subnet_mask, of_ip_v6_subnet_mask, CommandHandler}
use klevret.CommandLine.Elements.{
  cmd_version, blank, cmd_ip_address_ipv4, cmd_dhcp_pool_create, cmd_dhcp_pool_list,
}

abbrev pub check_args_size : List CommandElementRealValue → ℕ → Result (Unit {0})
check_args_size cmd number_of_args =
    throw_if (not (length cmd == number_of_args)) wrong_argument_count

-- `std::get<IPv4Address>`
abbrev pub get_ip_v4 : CommandElementRealValue → Result Ipv4Address
get_ip_v4 (of_ip_v4_address a) = ok a
get_ip_v4 (of_word w) = throw bad_variant_access
get_ip_v4 of_ip_v6_address = throw bad_variant_access
get_ip_v4 of_ip_v4_subnet_mask = throw bad_variant_access
get_ip_v4 of_ip_v6_subnet_mask = throw bad_variant_access

-- `cmd.top()`, which is undefined on an empty stack, and `cmd.pop()`.
abbrev pub top : List CommandElementRealValue → Result CommandElementRealValue
top cmd = deref (get_elem? cmd 0)

abbrev pub pop : List CommandElementRealValue → List CommandElementRealValue
pop cmd = drop 1 cmd

-- A text that is no Boolean gives the default value, too.
abbrev pub converted : Bool → Option Bool → Bool
converted default_value none = default_value
converted default_value (some b) = b

module _ (json : Json) where
  -- The request that a handler makes.
  unfoldable pub request_ip_address : List CommandElementRealValue → Result json.Ptree
  request_ip_address cmd = do
    check_args_size cmd 3
    value ← top cmd
    ip ← get_ip_v4 value
    ok (json.put (text "ip") (to_string ip) (json.put (text "cmd") (text "ip.address") json.empty))

  unfoldable pub request_pool_create : List CommandElementRealValue → Result json.Ptree
  request_pool_create cmd = do
    check_args_size cmd 5
    value ← top cmd
    ip_end ← get_ip_v4 value
    value' ← top (pop cmd)
    ip_start ← get_ip_v4 value'
    let json_1 = json.put (text "component") (text "dhcp") json.empty
    let json_2 = json.put (text "cmd") (text "dhcp.pool.create") json_1
    let json_3 = json.put (text "ip_start") (to_string ip_start) json_2
    ok (json.put (text "ip_end") (to_string ip_end) json_3)

  abbrev pub request_pool_list : json.Ptree
  request_pool_list =
      json.put (text "cmd") (text "dhcp.pool.list")
        (json.put (text "component") (text "dhcp") json.empty)

  -- What `send_cmd_and_get_reply` hands to the connection: the component is put in once more.
  abbrev pub sent_request : json.Ptree → json.Ptree
  sent_request obj = json.put (text "component") (text "dhcp") obj

  -- A handler on the stack of values: the request that it sends, if it sends one.
  unfoldable pub run_handler :
      CommandHandler → List CommandElementRealValue → Result (Option json.Ptree)
  run_handler cmd_version cmd = ok none
  run_handler blank cmd = ok none
  run_handler cmd_ip_address_ipv4 cmd = do
    obj ← request_ip_address cmd
    ok (some (sent_request obj))
  run_handler cmd_dhcp_pool_create cmd = do
    obj ← request_pool_create cmd
    ok (some (sent_request obj))
  run_handler cmd_dhcp_pool_list cmd = ok (some (sent_request request_pool_list))

  abbrev pub text_or : List ℕ → Option (List ℕ) → List ℕ
  text_or default_value none = default_value
  text_or default_value (some value) = value

  abbrev pub bool_or : Bool → Option (List ℕ) → Bool
  bool_or default_value none = default_value
  bool_or default_value (some value) = converted default_value (json.to_bool value)

  -- The message and the status that are written for a reply: OK or ERROR.
  abbrev pub shown : json.Ptree → List ℕ × Bool
  shown reply = (
    text_or [] (json.get_optional (text "msg") reply),
    bool_or false (json.get_optional (text "status") reply),
  )
