-- ===== src/AddressPool/Invariant.antt =====
-- dhcp/src/AddressPool.cpp: what the pool's maps keep to each other.
use klevret.Prelude.{subst, ◌≡◌, sym, ap, ◌∙◌, arith, true, [], Option}
use klevret.Prelude.{some, Bool-cases, inl, inr, eq_of_some}
use klevret.Prelude.Order.{same, same_refl}
use klevret.Prelude.Map
use klevret.Prelude.Map.{
  find-assign-same, find-assign_ne, find-erase-some, find-erase_ne, find-same,
}
use klevret.Endians.{Endian}
use klevret.IpAddress.{Ipv4Address}
use klevret.IpAddress.Laws.{ip_order}
use klevret.HardwareAddress.{MacAddress}
use klevret.HardwareAddress.Laws.{mac_order, same_mac→eq}
use klevret.AddressPool.{AddressPool, take_ip}

abbrev pub held_by : AddressPool → MacAddress → Option Ipv4Address
held_by p mac = Map.find mac_order mac p.taken_mac_addresses

abbrev pub reserved_for : AddressPool → MacAddress → Option Ipv4Address
reserved_for p mac = Map.find mac_order mac p.reserved_mac_addresses

module _ (native : Endian) where
  abbrev pub holder : AddressPool → Ipv4Address → Option MacAddress
  holder p ip = Map.find (ip_order native) ip p.taken_ip_addresses

  abbrev pub reserver : AddressPool → Ipv4Address → Option MacAddress
  reserver p ip = Map.find (ip_order native) ip p.reserved_ip_addresses

-- A client that holds an address is its holder, a client with a reservation its reserver, an
-- address that is reserved for a client is held by nobody else, and the cache is empty.
pub record IsConsistent (native : Endian) (p : AddressPool) : Type 0 where
  pub held :
      (m : MacAddress) (ip : Ipv4Address) → held_by p m ≡ some ip → holder native p ip ≡ some m
  pub reserved :
      (m : MacAddress) (ip : Ipv4Address)
      → reserved_for p m ≡ some ip
      → reserver native p ip ≡ some m
  pub kept :
      (m n : MacAddress) (ip : Ipv4Address)
      → reserved_for p m ≡ some ip
      → holder native p ip ≡ some n
      → n ≡ m
  pub no_cache : p.cache ≡ []

module _ (native : Endian) (p : AddressPool) (mac : MacAddress) (ip : Ipv4Address)
    (v : IsConsistent native p) (free : (m : MacAddress) → holder native p ip ≡ some m → m ≡ mac)
    (own : (m : MacAddress) (a : Ipv4Address)
      → reserved_for p m ≡ some a
      → same (ip_order native) ip a ≡ true
      → m ≡ mac) where
  take_ip-held :
      (m : MacAddress) (a : Ipv4Address)
      → held_by (take_ip native p mac ip) m ≡ some a
      → holder native (take_ip native p mac ip) a ≡ some m
  take_ip-held m a h = elim (Bool-cases (same mac_order mac m)) [
    | inl s ↦
        let e : ip ≡ a =
          eq_of_some (sym (find-assign-same mac_order mac m ip p.taken_mac_addresses s) ∙ h) in
        let f : mac ≡ m = same_mac→eq mac m s in
        find-assign-same (ip_order native) ip a mac p.taken_ip_addresses
          (subst (λ k. same (ip_order native) ip k ≡ true) e (same_refl (ip_order native) ip))
        ∙ ap some f
    | inr d ↦
        let old : holder native p a ≡ some m =
          v.held m a (sym (find-assign_ne mac_order mac m ip p.taken_mac_addresses d) ∙ h) in
        elim (Bool-cases (same (ip_order native) ip a)) [
          | inl s ↦
              let e : m ≡ mac =
                free m (find-same (ip_order native) ip a p.taken_ip_addresses s ∙ old) in
              absurd (ground (arith, same_refl mac_order mac, ap (same mac_order mac) e))
          | inr s ↦ find-assign_ne (ip_order native) ip a mac p.taken_ip_addresses s ∙ old
        ]
  ]

  take_ip-kept :
      (m n : MacAddress) (a : Ipv4Address)
      → reserved_for p m ≡ some a
      → holder native (take_ip native p mac ip) a ≡ some n
      → n ≡ m
  take_ip-kept m n a h k = elim (Bool-cases (same (ip_order native) ip a)) [
    | inl s ↦
        let e : mac ≡ n =
          eq_of_some
            (sym (find-assign-same (ip_order native) ip a mac p.taken_ip_addresses s) ∙ k) in
        sym e ∙ sym (own m a h s)
    | inr d ↦
        v.kept m n a h (sym (find-assign_ne (ip_order native) ip a mac p.taken_ip_addresses d) ∙ k)
  ]

  pub take_ip-IsConsistent : IsConsistent native (take_ip native p mac ip)
  take_ip-IsConsistent = record {
    held = take_ip-held;
    reserved = v.reserved;
    kept = take_ip-kept;
    no_cache = v.no_cache;
  }
