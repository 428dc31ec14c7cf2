-- ===== src/Api/Relay.antt =====
-- core/src/main.cpp: the relay of a request to the DHCP server.
use klevret.Prelude.{text, eq_text, Option, some, none, Result, ok, ◌>>=◌, if◌then◌else◌, caught}
use klevret.Json.{Json}
use klevret.Api.{ApiMessage, get}

module _ (boost : Json) where
  -- What is sent on for a message of the command line: a request for another component is dropped.
  unfoldable pub relay_request : ApiMessage boost → Result (Option (ApiMessage boost))
  relay_request message = do
    let json' = boost.put (text "message-type") (text "request") message.json
    component ← get boost (text "component") json'
    ok (if eq_text component (text "dhcp") then some (record message { json = json' }) else none)

  -- An exception is caught, and nothing is sent on.
  abbrev pub sent_on : Option (Option (ApiMessage boost)) → Option (ApiMessage boost)
  sent_on none = none
  sent_on (some message) = message

  unfoldable pub relay : ApiMessage boost → Result (Option (ApiMessage boost))
  relay message = do outcome ← caught (relay_request message); ok (sent_on outcome)
