-- ===== src/Api/Exchange/Delivery.antt =====
-- A request as it stands before the handlers of the DHCP server, and a reply as it is shown.
use klevret.Prelude.{ℕ, ◌≡◌, refl, ◌∙◌, false, List, text, eq_text, Option, some, ok, [], ◌∷◌, All}
use klevret.Prelude.{◌>>=◌}
use klevret.Json.{Json, IsKey}
use klevret.Endians.{Endian}
use klevret.DhcpServer.{DhcpServer}
use klevret.CommandLine.Handlers.{shown}
use klevret.Api.{ApiMessage, serialize}
use klevret.Api.Messages.{deserialize-object, deserialize-serialize}
use klevret.Api.Relay.{relay, relay_request}
use klevret.Api.Service.{serve}
use klevret.Api.Exchange.{packet_of, come_back, exchange}

module _ (boost : Json) where
  -- A text at a key is kept by a `put` at another.
  pub get-skip :
      (k j v : List ℕ) (t : boost.Ptree) {o : Option (List ℕ)}
      → IsKey k
      → IsKey j
      → eq_text k j ≡ false
      → boost.get_optional j t ≡ o
      → boost.get_optional j (boost.put k v t) ≡ o
  get-skip k j v t a b n h = boost.get-put_other k j v t a b n ∙ h

  abbrev with_component : boost.Ptree → boost.Ptree
  with_component t = boost.put (text "component") (text "dhcp") t

  abbrev relayed : boost.Ptree → boost.Ptree
  relayed t = boost.put (text "message-type") (text "request") (with_component t)

  abbrev pub delivered : boost.Ptree → ApiMessage boost
  delivered t = record { component_name = text "dhcp"; json = with_component (relayed t) }

  -- The other keys are as they were in the request.
  pub get-delivered :
      (k : List ℕ) (t : boost.Ptree) {o : Option (List ℕ)}
      → IsKey k
      → eq_text (text "component") k ≡ false
      → eq_text (text "message-type") k ≡ false
      → boost.get_optional k t ≡ o
      → boost.get_optional k (delivered t).json ≡ o
  get-delivered k t a c m h = get-skip (text "component") k (text "dhcp") (relayed t) refl a c (
      get-skip (text "message-type") k (text "request") (with_component t) refl a m
        (get-skip (text "component") k (text "dhcp") t refl a c h))

  IsObject-with_component : (t : boost.Ptree) → boost.IsObject t → boost.IsObject (with_component t)
  IsObject-with_component t o = boost.IsObject-put (text "component") (text "dhcp") t refl refl o

  IsObject-relayed : (t : boost.Ptree) → boost.IsObject t → boost.IsObject (relayed t)
  IsObject-relayed t o =
      boost.IsObject-put (text "message-type") (text "request") (with_component t) refl refl
        (IsObject-with_component t o)

  relay-dhcp :
      (t : boost.Ptree)
      → relay boost (record { component_name = text "dhcp"; json = with_component t })
        ≡ ok (some (record { component_name = text "dhcp"; json = relayed t }))
  unfolding relay relay_request
  relay-dhcp t =
      rw
        (get-skip (text "message-type") (text "component") (text "request") (with_component t) refl
          refl refl (boost.get-put (text "component") (text "dhcp") t refl))
        refl

-- One `recv` gives each of the packets as a whole.
abbrev pub AreWhole : (List ℕ → List ℕ) → List (List ℕ) → Type 0
AreWhole recv packets = All (λ packet. recv packet ≡ packet) packets

module _ (boost : Json) where
  abbrev packet : boost.Ptree → List ℕ
  packet t = (serialize boost (record { component_name = text "dhcp"; json = t })).0

  -- The packets of a request: to the core, and to the DHCP server.
  abbrev pub request_packets : boost.Ptree → List (List ℕ)
  request_packets t = packet t ∷ packet (relayed boost t) ∷ []

  -- The packets of a reply: to the core, and to the command line.
  abbrev pub reply_packets : boost.Ptree → List (List ℕ)
  reply_packets t = packet t ∷ packet (with_component boost t) ∷ []

module _ (boost : Json) (recv : List ℕ → List ℕ) (native : Endian) (fuel : ℕ) where
  -- A request with the component of the DHCP server reaches its handlers.
  pub exchange-delivered :
      (s : DhcpServer) (t : boost.Ptree)
      → AreWhole recv (request_packets boost t)
      → boost.IsObject t
      → boost.get_optional (text "component") t ≡ some (text "dhcp")
      → exchange boost recv native fuel s t ≡ (do
        (reply, s') ← serve boost native fuel s (delivered boost t)
        shown_reply ← come_back boost recv reply
        ok (shown_reply, s'))
  unfolding exchange packet_of
  exchange-delivered s t (w, (x, _)) o c =
      rw
        (
          deserialize-object boost t (text "dhcp") (boost.write_json t) o c refl,
          w,
          deserialize-serialize boost (record { component_name = text "dhcp"; json = t }) o refl,
          relay-dhcp boost t,
          x,
          deserialize-serialize boost
              (record { component_name = text "dhcp"; json = relayed boost t })
              (IsObject-relayed boost t o) refl,
        )
        refl

module _ (boost : Json) (recv : List ℕ → List ℕ) where
  -- A reply of the DHCP server is shown as it was made.
  pub come_back-shown :
      (json : boost.Ptree) (message : Option (List ℕ)) (status : Option (List ℕ))
      → AreWhole recv (reply_packets boost json)
      → boost.IsObject json
      → boost.get_optional (text "msg") json ≡ message
      → boost.get_optional (text "status") json ≡ status
      → (shown_json : boost.Ptree) × (come_back boost recv
            (some (record { component_name = text "dhcp"; json = json }))
          ≡ ok (some (shown boost shown_json)))
        × (boost.get_optional (text "msg") shown_json ≡ message)
        × (boost.get_optional (text "status") shown_json ≡ status)
  unfolding come_back
  come_back-shown json message status (w, (x, _)) o m t = (
    with_component boost (with_component boost json),
    rw
        (
          w,
          deserialize-serialize boost (record { component_name = text "dhcp"; json = json }) o refl,
          x,
          deserialize-serialize boost
              (record { component_name = text "dhcp"; json = with_component boost json })
              (IsObject-with_component boost json o) refl,
        )
        refl,
    kept (text "msg") refl refl m,
    kept (text "status") refl refl t,
  )
    where
      kept :
          (k : List ℕ) {value : Option (List ℕ)}
          → IsKey k
          → eq_text (text "component") k ≡ false
          → boost.get_optional k json ≡ value
          → boost.get_optional k (with_component boost (with_component boost json)) ≡ value
      kept k a n h =
          get-skip boost (text "component") k (text "dhcp") (with_component boost json) refl a n
            (get-skip boost (text "component") k (text "dhcp") json refl a n h)
