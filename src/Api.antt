-- ===== src/Api.antt =====
-- common/src: the messages between the processes, and the queue of a listener. The sockets are left out: a
-- packet is what one `recv` has given.
pub mod Messages
pub mod Queue
pub mod Service
pub mod Relay
pub mod Exchange
use klevret.Prelude.{
  ℕ, Bool, not, true, false, List, [], ◌∷◌, ◌++◌, text, Option, some, none, Result, ok, throw,
}
use klevret.Prelude.{◌>>=◌, no_such_key, queue_is_empty, eq_text, if◌then◌else◌}
use klevret.Json.{Json}
use klevret.CommandLine.Handlers.{text_or}

module _ (boost : Json) where
  -- `get<std::string>(key)`
  abbrev pub found : Option (List ℕ) → Result (List ℕ)
  found none = throw no_such_key
  found (some value) = ok value

  abbrev pub get : List ℕ → boost.Ptree → Result (List ℕ)
  get key json = found (boost.get_optional key json)

  pub record ApiMessage : Type 0 where
    pub component_name : List ℕ
    pub json : boost.Ptree

  -- The packet, and the member `json` after the call.
  unfoldable pub serialize : ApiMessage → List ℕ × boost.Ptree
  serialize message =
      let json' = boost.put (text "component") message.component_name message.json in
      (boost.trim (boost.write_json json'), json')

  -- `deserialize`, and the constructor from a packet.
  unfoldable pub deserialize : List ℕ → Result ApiMessage
  deserialize packet = do
    json' ← boost.read_json (boost.trim packet)
    ok (record {
      component_name = text_or boost [] (boost.get_optional (text "component") json');
      json = json';
    })

  -- The members of ApiListener that its methods share.
  pub record ApiListener : Type 0 where
    pub queue : List ApiMessage

  -- A turn of `_thread_func` that has received a packet.
  unfoldable pub receive : ApiListener → List ℕ → Result ApiListener
  receive listener packet = do
    message ← deserialize packet
    ok (record { queue = listener.queue ++ (message ∷ []) })

  abbrev pub is_empty : List ApiMessage → Bool
  is_empty [] = true
  is_empty (m ∷ queue) = false

  abbrev pub is_there_messages : ApiListener → Bool
  is_there_messages listener = not (is_empty listener.queue)

  unfoldable pub get_next_message : ApiListener → Result (ApiMessage × ApiListener)
  get_next_message listener = elim listener.queue [
    | [] ↦ throw queue_is_empty
    | m ∷ queue ↦ ok (m, record { queue = queue })
  ]
