-- ===== src/AddressPool/Construction.antt =====
-- dhcp/src/AddressPool.cpp: the constructor's loop.
use klevret.Prelude.{ℕ, zero, suc, ◌+◌, ◌-◌, ◌^◌, ◌<◌, ◌≤◌, ◌≡◌, refl, ◌∙◌, arith, leb, ◌&&◌}
use klevret.Prelude.{Bool, true, false, List, [], ok, running, Bool-cases, inl, inr, ◌||◌}
use klevret.Prelude.Order.{same}
use klevret.Prelude.SortedSet.{insert, contains, contains-insert}
use klevret.Endians.{Endian}
use klevret.IpAddress.{Ipv4Address, IsValid, to_uint32_t, increment}
use klevret.IpAddress.Laws.{ip_order, increment-value, same_ip_iff, to_uint32_t-lt}
use klevret.AddressPool.{AddressPool, fill, make_pool, range_contains, is_address_included}

module _ (native : Endian) where
  abbrev val : Ipv4Address → ℕ
  val = to_uint32_t native

  -- Whether `a` is one of the addresses from `ip` to `end_ip`.
  abbrev between : Ipv4Address → Ipv4Address → Ipv4Address → Bool
  between ip end_ip a = leb (val ip) (val a) && leb (val a) (val end_ip)

  between-increment :
      (ip end_ip a : Ipv4Address)
      → val ip ≤ val end_ip
      → val end_ip < 2 ^ 32 - 1
      → between ip end_ip a
        ≡ (same (ip_order native) ip a || between (increment native ip) end_ip a)
  between-increment ip end_ip a le lt =
      ground (arith, increment-value native ip, same_ip_iff native ip a)

  -- A call that stops in its first round.
  fill_stops :
      (fuel : ℕ) (ip end_ip : Ipv4Address) (s : List Ipv4Address) (a : Ipv4Address)
      → val end_ip < val ip
      → (t : List Ipv4Address) × (fill native (suc fuel) ip end_ip s ≡ ok t)
        × (contains (ip_order native) a t ≡ (between ip end_ip a || contains (ip_order native) a s))
  unfolding fill
  fill_stops fuel ip end_ip s a lt =
      let p : leb (val ip) (val end_ip) ≡ false = ground arith in
      let none : between ip end_ip a ≡ false = ground arith in rw (p, fill) (s, refl, rw none refl)

  fill-between :
      (fuel : ℕ) (ip end_ip : Ipv4Address) (s : List Ipv4Address) (a : Ipv4Address)
      → val end_ip < 2 ^ 32 - 1
      → val end_ip < val ip + fuel
      → (t : List Ipv4Address) × (fill native (suc fuel) ip end_ip s ≡ ok t)
        × (contains (ip_order native) a t ≡ (between ip end_ip a || contains (ip_order native) a s))
  unfolding fill
  fill-between zero ip end_ip s a lt enough = fill_stops zero ip end_ip s a (omega arith)
  fill-between (suc fuel) ip end_ip s a lt enough = elim (Bool-cases (leb (val ip) (val end_ip))) [
    | inl p ↦
        let le : val ip ≤ val end_ip = ground arith in
        let up : val (increment native ip) ≡ val ip + 1 =
          omega (arith, increment-value native ip) in
        let (t, e, c) =
          fill-between fuel (increment native ip) end_ip (insert (ip_order native) ip s) a lt
            (omega arith) in
        rw (p, fill)
          (
            t,
            e,
            c
                ∙ union (same (ip_order native) ip a) (between (increment native ip) end_ip a)
                    (contains (ip_order native) a s) (between-increment ip end_ip a le lt)
                    (contains-insert (ip_order native) a ip s),
          )
    | inr p ↦ fill_stops (suc fuel) ip end_ip s a (ground arith)
  ]
    where
      union : {w z : Bool} (x y v : Bool) → w ≡ (x || y) → z ≡ (x || v) → (y || z) ≡ (w || v)
      union x y v p q = ground arith

  -- A range that does not end at 255.255.255.255: the constructor returns when it has a round for
  -- each address and one more, and then an address is included exactly when the range contains it.
  pub make_pool_included :
      (fuel : ℕ) (start_ip end_ip a : Ipv4Address)
      → val end_ip < 2 ^ 32 - 1
      → val end_ip < val start_ip + fuel
      → (p : AddressPool) × (make_pool native (suc fuel) start_ip end_ip ≡ ok p)
        × (is_address_included native p a ≡ range_contains native p.addresses_range a)
  unfolding make_pool range_contains contains
  make_pool_included fuel start_ip end_ip a lt enough =
      let (t, e, c) = fill-between fuel start_ip end_ip [] a lt enough in
      let none : (between start_ip end_ip a || false) ≡ between start_ip end_ip a = ground arith in
      rw (e, make_pool) (_, refl, c ∙ none)

  fill_endless :
      (fuel : ℕ) (ip end_ip : Ipv4Address) (s : List Ipv4Address)
      → val ip < 2 ^ 32
      → val end_ip ≡ 2 ^ 32 - 1
      → fill native fuel ip end_ip s ≡ running
  unfolding fill
  fill_endless zero ip end_ip s lt last = refl
  fill_endless (suc fuel) ip end_ip s lt last =
      let p : leb (val ip) (val end_ip) ≡ true = ground arith in
      rw (p, fill)
        (fill_endless fuel (increment native ip) end_ip (insert (ip_order native) ip s)
          (omega (arith, increment-value native ip)) last)

  -- A range that ends at 255.255.255.255: no number of rounds ends the constructor's loop, since
  -- the increment of the last address is 0.0.0.0.
  pub make_pool_endless :
      (fuel : ℕ) (start_ip end_ip : Ipv4Address)
      → IsValid start_ip
      → val end_ip ≡ 2 ^ 32 - 1
      → make_pool native fuel start_ip end_ip ≡ running
  unfolding make_pool
  make_pool_endless fuel start_ip end_ip v last =
      rw (fill_endless fuel start_ip end_ip [] (to_uint32_t-lt native start_ip v) last, make_pool)
        refl
