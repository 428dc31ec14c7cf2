-- ===== src/Api/Exchange/Outcomes.antt =====
-- What becomes of the requests of the command line.
use klevret.Prelude.{ℕ, ◌<◌, ◌≡◌, refl, ◌∙◌, arith, Bool, true, false, ◌&&◌, List, [], ◌∷◌, ◌++◌}
use klevret.Prelude.{text, some, ok}
use klevret.Json.{Json, every, is_ascii, IsAscii}
use klevret.Endians.{Endian}
use klevret.IpAddress
use klevret.IpAddress.{Ipv4Address, IsValid, decimal}
use klevret.IpAddress.Text.{of_string-to_string}
use klevret.AddressPool.{AddressPool, make_pool}
use klevret.DhcpServer.{DhcpServer, add_address_pool}
use klevret.CommandLine.Addresses.{to_string}
use klevret.CommandLine.Elements.{CommandElementRealValue, of_ip_v4_address}
use klevret.CommandLine.Elements.{cmd_dhcp_pool_create}
use klevret.CommandLine.Handlers.{run_handler, request_pool_create, sent_request}
use klevret.Api.Service.{create_pool, answer, serve, error_text}
use klevret.Api.Exchange.{exchange, come_back}
use klevret.Api.Exchange.Delivery.{
  AreWhole, request_packets, reply_packets, get-skip, delivered, get-delivered, exchange-delivered,
  come_back-shown,
}

every-append :
    (p : ℕ → Bool) (s t : List ℕ) → every p s ≡ true → every p t ≡ true → every p (s ++ t) ≡ true
every-append p [] t h k = k
every-append p (c ∷ s) t h k =
    let (a, b) = both (p c) (every p s) h in rw (a, every-append p s t b k) refl
  where
    both : (a b : Bool) → (a && b) ≡ true → (a ≡ true) × (b ≡ true)
    both true b h = (refl, h)
    both false b h = absurd (cc)

IsAscii-decimal : (n : ℕ) → n < 256 → IsAscii (decimal n)
unfolding decimal
IsAscii-decimal n h = ground arith

pub IsAscii-to_string : (a : Ipv4Address) → IsValid a → IsAscii (to_string a)
unfolding to_string
IsAscii-to_string a v =
    every-append is_ascii (decimal a.octet_0) _ (IsAscii-decimal a.octet_0 v.byte_0) (
      every-append is_ascii (decimal a.octet_1) _ (IsAscii-decimal a.octet_1 v.byte_1) (
        every-append is_ascii (decimal a.octet_2) _ (IsAscii-decimal a.octet_2 v.byte_2)
          (IsAscii-decimal a.octet_3 v.byte_3)))

-- The text of an address of the command line is read by the server as that address.
pub of_string-address : (a : Ipv4Address) → IsValid a → IpAddress.of_string (to_string a) ≡ ok a
unfolding to_string IpAddress.to_string
of_string-address a v = of_string-to_string a v

module _ (boost : Json) where
  -- The request for a pool from `a` to `b`, as it is sent.
  abbrev pub pool_request : Ipv4Address → Ipv4Address → boost.Ptree
  pool_request a b = sent_request boost (
      boost.put (text "ip_end") (to_string b) (
        boost.put (text "ip_start") (to_string a) (
          boost.put (text "cmd") (text "dhcp.pool.create")
            (boost.put (text "component") (text "dhcp") boost.empty))))

  pool_request-IsObject :
      (a b : Ipv4Address) → IsValid a → IsValid b → boost.IsObject (pool_request a b)
  pool_request-IsObject a b v w = boost.IsObject-put (text "component") (text "dhcp") _ refl refl (
      boost.IsObject-put (text "ip_end") (to_string b) _ refl (IsAscii-to_string b w) (
        boost.IsObject-put (text "ip_start") (to_string a) _ refl (IsAscii-to_string a v) (
          boost.IsObject-put (text "cmd") (text "dhcp.pool.create") _ refl refl
            (boost.IsObject-put_empty (text "component") (text "dhcp") refl refl))))

  -- The texts of the request, where the server reads them.
  delivered-cmd :
      (a b : Ipv4Address)
      → boost.get_optional (text "cmd") (delivered boost (pool_request a b)).json
        ≡ some (text "dhcp.pool.create")
  delivered-cmd a b = get-delivered boost (text "cmd") (pool_request a b) refl refl refl (
      get-skip boost (text "component") (text "cmd") _ _ refl refl refl (
        get-skip boost (text "ip_end") (text "cmd") _ _ refl refl refl (
          get-skip boost (text "ip_start") (text "cmd") _ _ refl refl refl
            (boost.get-put (text "cmd") (text "dhcp.pool.create") _ refl))))

  delivered-ip_start :
      (a b : Ipv4Address)
      → boost.get_optional (text "ip_start") (delivered boost (pool_request a b)).json
        ≡ some (to_string a)
  delivered-ip_start a b = get-delivered boost (text "ip_start") (pool_request a b) refl refl refl (
      get-skip boost (text "component") (text "ip_start") _ _ refl refl refl (
        get-skip boost (text "ip_end") (text "ip_start") _ _ refl refl refl
          (boost.get-put (text "ip_start") (to_string a) _ refl)))

  delivered-ip_end :
      (a b : Ipv4Address)
      → boost.get_optional (text "ip_end") (delivered boost (pool_request a b)).json
        ≡ some (to_string b)
  delivered-ip_end a b = get-delivered boost (text "ip_end") (pool_request a b) refl refl refl (
      get-skip boost (text "component") (text "ip_end") _ _ refl refl refl
        (boost.get-put (text "ip_end") (to_string b) _ refl))

module _ (boost : Json) where
  -- The reply of the server to a request for a pool.
  abbrev pub created : Bool → boost.Ptree
  created result = boost.put (text "cmd") (text "dhcp.pool.create") (
      boost.put (text "msg") (error_text result)
        (boost.put (text "status") (boost.of_bool result) boost.empty))

module _ (boost : Json) (recv : List ℕ → List ℕ) (native : Endian) (fuel : ℕ) where
  serve-pool_request :
      (s : DhcpServer) (a b : Ipv4Address) (p : AddressPool)
      → IsValid a
      → IsValid b
      → make_pool native fuel a b ≡ ok p
      → serve boost native fuel s (delivered boost (pool_request boost a b))
        ≡ ok (
          some (record {
            component_name = text "dhcp";
            json = created boost (add_address_pool native s p).0;
          }),
          (add_address_pool native s p).1,
        )
  unfolding serve answer create_pool
  serve-pool_request s a b p v w h =
      rw
        (
          delivered-cmd boost a b,
          delivered-ip_start boost a b,
          of_string-address a v,
          delivered-ip_end boost a b,
          of_string-address b w,
          h,
        )
        refl

  created-IsObject : (result : Bool) → boost.IsObject (created boost result)
  created-IsObject result = boost.IsObject-put (text "cmd") (text "dhcp.pool.create") _ refl refl (
      boost.IsObject-put (text "msg") (error_text result) _ refl (error_text-IsAscii result) (
        boost.IsObject-put_empty (text "status") (boost.of_bool result) refl
          (boost.IsAscii-of_bool result)))
    where
      error_text-IsAscii : (result : Bool) → IsAscii (error_text result)
      error_text-IsAscii true = refl
      error_text-IsAscii false = refl

  come_back-created :
      (result : Bool)
      → AreWhole recv (reply_packets boost (created boost result))
      → come_back boost recv
          (some (record { component_name = text "dhcp"; json = created boost result }))
        ≡ ok (some (error_text result, result))
  come_back-created result whole =
      let (json, e, m, t) =
        come_back-shown boost recv (created boost result) (some (error_text result))
          (some (boost.of_bool result)) whole (created-IsObject result)
          (get-skip boost (text "cmd") (text "msg") _ _ refl refl refl
            (boost.get-put (text "msg") (error_text result) _ refl))
          (get-skip boost (text "cmd") (text "status") _ _ refl refl refl (
            get-skip boost (text "msg") (text "status") _ _ refl refl refl
              (boost.get-put (text "status") (boost.of_bool result) _ refl))) in
      e ∙ rw (m, t, boost.to_bool-of_bool result) refl

  -- The command for a pool, run on two valid addresses of which the constructor makes a pool, where one
  -- `recv` gives each packet as a whole, has the
  -- server do what `add_address_pool` does with that pool, and shows its status and its error.
  pub exchange-pool_create :
      (s : DhcpServer) (a b : Ipv4Address) (u v w : CommandElementRealValue) (p : AddressPool)
      → IsValid a
      → IsValid b
      → make_pool native fuel a b ≡ ok p
      → AreWhole recv (
          request_packets boost (pool_request boost a b)
          ++ reply_packets boost (created boost (add_address_pool native s p).0))
      → (request : boost.Ptree) × (run_handler boost cmd_dhcp_pool_create
            (of_ip_v4_address b ∷ of_ip_v4_address a ∷ u ∷ v ∷ w ∷ [])
          ≡ ok (some request))
        × (exchange boost recv native fuel s request
            ≡ ok (
              some (error_text (add_address_pool native s p).0, (add_address_pool native s p).0),
              (add_address_pool native s p).1,
            ))
  unfolding run_handler request_pool_create
  exchange-pool_create s a b u v w p i j h (c, (d, (e, (f, _)))) = (
    pool_request boost a b,
    refl,
    exchange-delivered boost recv native fuel s (pool_request boost a b) (c, (d, tt))
          (pool_request-IsObject boost a b i j)
          (boost.get-put (text "component") (text "dhcp") _ refl)
        ∙ rw
            (
              serve-pool_request s a b p i j h,
              come_back-created (add_address_pool native s p).0 (e, (f, tt)),
            )
            refl,
  )
