-- ===== src/Api/Messages.antt =====
-- common/src/ApiEndpoint.cpp: a message that is written is read back.
use klevret.Prelude.{ℕ, ◌≡◌, refl, List, text, ok, some}
use klevret.Json.{Json, IsAscii}
use klevret.Api.{ApiMessage, serialize, deserialize}

module _ (boost : Json) where
  -- A packet with the text of an object is read as a message with its component.
  pub deserialize-object :
      (json : boost.Ptree) (component packet : List ℕ)
      → boost.IsObject json
      → boost.get_optional (text "component") json ≡ some component
      → boost.trim packet ≡ boost.trim (boost.write_json json)
      → deserialize boost packet ≡ ok (record { component_name = component; json = json })
  unfolding deserialize
  deserialize-object json component packet o c e = rw (e, boost.read_json-write_json json o, c) refl

  -- A message is read back by the process that it is sent to, with its component put into its tree.
  pub deserialize-serialize :
      (message : ApiMessage boost)
      → boost.IsObject message.json
      → IsAscii message.component_name
      → deserialize boost (serialize boost message).0
        ≡ ok (record {
          component_name = message.component_name;
          json = boost.put (text "component") message.component_name message.json;
        })
  unfolding serialize
  deserialize-serialize message o a =
      deserialize-object (boost.put (text "component") message.component_name message.json)
        message.component_name (boost.trim (boost.write_json _))
        (boost.IsObject-put (text "component") message.component_name message.json refl a o)
        (boost.get-put (text "component") message.component_name message.json refl)
        (boost.trim-trim (boost.write_json _))
