-- ===== src/Api/Exchange/Failures.antt =====
-- The requests of the command line that the DHCP server does not serve.
use klevret.Prelude.{ℕ, ◌≡◌, refl, ◌∙◌, false, List, [], ◌∷◌, ◌++◌, text, some, none, ok}
use klevret.Json.{Json}
use klevret.Endians.{Endian}
use klevret.IpAddress.{Ipv4Address, IsValid}
use klevret.DhcpServer.{DhcpServer}
use klevret.CommandLine.Addresses.{to_string}
use klevret.CommandLine.Elements.{CommandElementRealValue, of_ip_v4_address}
use klevret.CommandLine.Elements.{cmd_ip_address_ipv4, cmd_dhcp_pool_list}
use klevret.CommandLine.Handlers.{run_handler, request_ip_address, sent_request, request_pool_list}
use klevret.Api.Service.{answer, serve}
use klevret.Api.Exchange.{exchange, come_back}
use klevret.Api.Exchange.Delivery.{
  AreWhole, request_packets, reply_packets, get-skip, delivered, get-delivered, exchange-delivered,
  come_back-shown,
}
use klevret.Api.Exchange.Outcomes.{IsAscii-to_string}

module _ (boost : Json) where
  abbrev pub address_request : Ipv4Address → boost.Ptree
  address_request a =
      sent_request boost (
        boost.put (text "ip") (to_string a)
          (boost.put (text "cmd") (text "ip.address") boost.empty))

  address_request-IsObject : (a : Ipv4Address) → IsValid a → boost.IsObject (address_request a)
  address_request-IsObject a v = boost.IsObject-put (text "component") (text "dhcp") _ refl refl (
      boost.IsObject-put (text "ip") (to_string a) _ refl (IsAscii-to_string a v)
        (boost.IsObject-put_empty (text "cmd") (text "ip.address") refl refl))

  address-cmd :
      (a : Ipv4Address)
      → boost.get_optional (text "cmd") (delivered boost (address_request a)).json
        ≡ some (text "ip.address")
  address-cmd a = get-delivered boost (text "cmd") (address_request a) refl refl refl (
      get-skip boost (text "component") (text "cmd") _ _ refl refl refl (
        get-skip boost (text "ip") (text "cmd") _ _ refl refl refl
          (boost.get-put (text "cmd") (text "ip.address") _ refl)))

  abbrev pub list_request : boost.Ptree
  list_request = sent_request boost (request_pool_list boost)

  list_request-IsObject : boost.IsObject list_request
  list_request-IsObject = boost.IsObject-put (text "component") (text "dhcp") _ refl refl (
      boost.IsObject-put (text "cmd") (text "dhcp.pool.list") _ refl refl
        (boost.IsObject-put_empty (text "component") (text "dhcp") refl refl))

  list-cmd :
      boost.get_optional (text "cmd") (delivered boost list_request).json
      ≡ some (text "dhcp.pool.list")
  list-cmd = get-delivered boost (text "cmd") list_request refl refl refl (
      get-skip boost (text "component") (text "cmd") _ _ refl refl refl
        (boost.get-put (text "cmd") (text "dhcp.pool.list") _ refl))

  -- The reply to `dhcp pool list` has no status.
  abbrev pub listed : boost.Ptree
  listed =
      boost.put (text "cmd") (text "dhcp.pool.list")
        (boost.put (text "msg") (text "blank msg") boost.empty)

  come_back-listed :
      (recv : List ℕ → List ℕ)
      → AreWhole recv (reply_packets boost listed)
      → come_back boost recv (some (record { component_name = text "dhcp"; json = listed }))
        ≡ ok (some (text "blank msg", false))
  come_back-listed recv whole =
      let (json, e, m, t) =
        come_back-shown boost recv listed (some (text "blank msg")) none whole
          (boost.IsObject-put (text "cmd") (text "dhcp.pool.list") _ refl refl
            (boost.IsObject-put_empty (text "msg") (text "blank msg") refl refl))
          (get-skip boost (text "cmd") (text "msg") _ _ refl refl refl
            (boost.get-put (text "msg") (text "blank msg") _ refl))
          (get-skip boost (text "cmd") (text "status") _ _ refl refl refl (
            get-skip boost (text "msg") (text "status") _ _ refl refl refl
              (boost.get-empty (text "status") refl))) in
      e ∙ rw (m, t) refl

module _ (boost : Json) (recv : List ℕ → List ℕ) (native : Endian) (fuel : ℕ) where
  -- The command `ip address` on a valid address sends a request that no handler of the server is for:
  -- where one `recv` gives each of its packets as a whole, the server stays as it is, and no reply comes
  -- back.
  pub exchange-ip_address :
      (s : DhcpServer) (a : Ipv4Address) (u v : CommandElementRealValue)
      → IsValid a
      → AreWhole recv (request_packets boost (address_request boost a))
      → (request : boost.Ptree) × (run_handler boost cmd_ip_address_ipv4
            (of_ip_v4_address a ∷ u ∷ v ∷ [])
          ≡ ok (some request))
        × (exchange boost recv native fuel s request ≡ ok (none, s))
  unfolding run_handler request_ip_address serve answer come_back
  exchange-ip_address s a u v i whole = (
    address_request boost a,
    refl,
    exchange-delivered boost recv native fuel s (address_request boost a) whole
          (address_request-IsObject boost a i)
          (boost.get-put (text "component") (text "dhcp") _ refl)
        ∙ rw (address-cmd boost a) refl,
  )

  -- The command `dhcp pool list` leaves the server as it is, and is shown as an error, where one `recv`
  -- gives each of its packets as a whole.
  pub exchange-pool_list :
      (s : DhcpServer) (stack : List CommandElementRealValue)
      → AreWhole recv
          (request_packets boost (list_request boost) ++ reply_packets boost (listed boost))
      → (request : boost.Ptree) × (run_handler boost cmd_dhcp_pool_list stack ≡ ok (some request))
        × (exchange boost recv native fuel s request ≡ ok (some (text "blank msg", false), s))
  unfolding run_handler serve answer
  exchange-pool_list s stack (c, (d, (e, (f, _)))) = (
    list_request boost,
    refl,
    exchange-delivered boost recv native fuel s (list_request boost) (c, (d, tt))
          (list_request-IsObject boost) (boost.get-put (text "component") (text "dhcp") _ refl)
        ∙ rw (list-cmd boost, come_back-listed boost recv (e, (f, tt))) refl,
  )
