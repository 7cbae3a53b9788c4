-- ===== src/Itch/Parser/Reads.antt =====
-- The eight parse functions of include/itch5/parser.hpp return on a message of full length, whatever
-- callbacks are set that return.
use dpdk_itch5_feedhandler.Prelude.{
  ℕ, zero, suc, ◌≤◌, ◌<◌, ◌^◌, ◌≡◌, refl, [], ◌∷◌, none, some, Bytes, AreBytes, All-take, All-drop,
  Option, get_or, load, load-eq-take, length, length-take, take, drop, ◌>>=◌, inl, inr,
  Option-cases, inc64, subst, arith,
}
use dpdk_itch5_feedhandler.Common.Endian.{read_be48, ntoh32}
use dpdk_itch5_feedhandler.Common.Endian.Reads.{read_be48-lt, ntoh32-lt}
use dpdk_itch5_feedhandler.Itch.Layout.{Layout, sizeof, field, text, length-field}
use dpdk_itch5_feedhandler.Itch.Callbacks.{Callbacks}
use dpdk_itch5_feedhandler.Itch.Messages.Orders.{
  view_add_order, add_order_layout, view_add_order_mpid, add_order_mpid_layout, view_order_executed,
  order_executed_layout, view_order_executed_with_price, order_executed_with_price_layout,
}
use dpdk_itch5_feedhandler.Itch.Messages.Changes.{
  view_order_cancel, order_cancel_layout, view_order_delete, order_delete_layout,
  view_order_replace, order_replace_layout, view_trade, trade_layout,
}
use dpdk_itch5_feedhandler.Itch.Parser.{
  Stats, convert_price, parse_add_order, parse_add_order_mpid, parse_order_executed,
  parse_order_executed_with_price, parse_order_cancel, parse_order_delete, parse_order_replace,
  parse_trade,
}

field-AreBytes : (l : Layout) (i : ℕ) (p : Bytes) → AreBytes p → AreBytes (field l i p)
unfolding field
field-AreBytes [] i p h = tt
field-AreBytes (n ∷ l) zero p h = All-take _ n p h
field-AreBytes (n ∷ l) (suc i) p h = field-AreBytes l i (drop n p) (All-drop _ n p h)

-- The timestamp of a message is its fourth field.
timestamp-returns :
    (l : Layout) (p : Bytes)
    → get_or l 3 0 ≡ 6
    → AreBytes p
    → sizeof l ≤ length p
    → (ts : ℕ) × (read_be48 (text l 3 p) ≡ some ts) × (ts < 2 ^ 48)
unfolding text
timestamp-returns l p six bytes h =
    read_be48-lt (field l 3 p) (field-AreBytes l 3 p bytes)
      (omega (arith, length-field l 3 p h, six))

-- A 32-bit price that is scaled by 100 does not overflow `int64_t`.
convert_price-lt : (v : ℕ) → convert_price (ntoh32 v) < 2 ^ 63
unfolding convert_price
convert_price-lt v = omega (arith, ntoh32-lt v)

module _ {ℓ κ} {V : Type ℓ} (J : V → Type κ) where
  -- A call that returns, with the invariant `J` of the callbacks' state.
  abbrev pub Keeps : Option V → Type (ℓ ⊔ κ)
  Keeps o = (v : V) × (o ≡ some v) × J v

  abbrev pub Keeps1 : {M : Type 0} → Option (M → ℕ → V → Option V) → Type (ℓ ⊔ κ)
  Keeps1 none = Unit
  Keeps1 {M} (some cb) = (m : M) (ts : ℕ) (v : V) → ts < 2 ^ 48 → J v → Keeps (cb m ts v)

  abbrev pub Keeps2 : {M : Type 0} → Option (M → ℕ → ℕ → V → Option V) → Type (ℓ ⊔ κ)
  Keeps2 none = Unit
  Keeps2 {M} (some cb) =
      (m : M) (ts price : ℕ) (v : V) → ts < 2 ^ 48 → price < 2 ^ 63 → J v → Keeps (cb m ts price v)

  abbrev pub Keeps3 : {M : Type 0} → Option (M → ℕ → ℕ → ℕ → V → Option V) → Type (ℓ ⊔ κ)
  Keeps3 none = Unit
  Keeps3 {M} (some cb) =
      (m : M) (ts price qty : ℕ) (v : V)
      → ts < 2 ^ 48
      → price < 2 ^ 63
      → qty < 2 ^ 32
      → J v
      → Keeps (cb m ts price qty v)

  -- Every callback that is set returns, and keeps the invariant, on numbers that fit their types.
  pub record KeepCallbacks (cbs : Callbacks V) : Type (ℓ ⊔ κ) where
    pub add_order : Keeps3 cbs.add_order
    pub add_order_mpid : Keeps3 cbs.add_order_mpid
    pub order_executed : Keeps1 cbs.order_executed
    pub order_executed_with_price : Keeps2 cbs.order_executed_with_price
    pub order_cancel : Keeps1 cbs.order_cancel
    pub order_delete : Keeps1 cbs.order_delete
    pub order_replace : Keeps3 cbs.order_replace
    pub trade : Keeps3 cbs.trade

  -- What the eight parse functions share: load the struct, read its timestamp, call.
  load_and_call :
      (l : Layout) (msg : Bytes) (counted : Stats) (act : Bytes → ℕ → Option V)
      → get_or l 3 0 ≡ 6
      → AreBytes msg
      → sizeof l ≤ length msg
      → ((raw : Bytes) (ts : ℕ) → ts < 2 ^ 48 → Keeps (act raw ts))
      → (r : Stats × V) × ((load (sizeof l) msg >>= λ raw.
            read_be48 (text l 3 raw) >>= λ ts. act raw ts >>= λ v'. some (counted, v'))
          ≡ some r)
        × J r.1
  load_and_call l msg counted act six bytes h k =
      let raw = take (sizeof l) msg in
      let t =
        timestamp-returns l raw six (All-take _ (sizeof l) msg bytes)
          (omega (arith, length-take (sizeof l) msg)) in
      let done = k raw t.0 t.2 in
      ((counted, done.0), rw (load-eq-take (sizeof l) msg h, t.1, done.1), done.2)

  module _ (cbs : Callbacks V) (keep : KeepCallbacks cbs) (s : Stats) (msg : Bytes) (v : V)
      (j : J v) (bytes : AreBytes msg) where
    pub add_order_returns :
        sizeof add_order_layout ≤ length msg
        → (r : Stats × V) × (parse_add_order cbs s msg v ≡ some r) × J r.1
    unfolding parse_add_order view_add_order
    add_order_returns h = elim (Option-cases cbs.add_order) [
      | inl unset ↦
          ((record s { add_orders = inc64 s.add_orders }, v), rw (unset, parse_add_order), j)
      | inr (cb, set) ↦
          (let k : Keeps3 (some cb) = subst Keeps3 set keep.add_order in
            let out =
              load_and_call add_order_layout msg (record s { add_orders = inc64 s.add_orders })
                (λ raw ts.
                  cb (view_add_order raw) ts (convert_price (ntoh32 (view_add_order raw).price))
                    (ntoh32 (view_add_order raw).shares) v)
                refl bytes h
                (λ raw ts b.
                  k (view_add_order raw) ts _ _ v b (convert_price-lt (view_add_order raw).price)
                    (ntoh32-lt (view_add_order raw).shares) j) in
            (out.0, rw (set, parse_add_order) out.1, out.2))
    ]

    pub add_order_mpid_returns :
        sizeof add_order_mpid_layout ≤ length msg
        → (r : Stats × V) × (parse_add_order_mpid cbs s msg v ≡ some r) × J r.1
    unfolding parse_add_order_mpid view_add_order_mpid
    add_order_mpid_returns h = elim (Option-cases cbs.add_order_mpid) [
      | inl unset ↦
          ((record s { add_orders = inc64 s.add_orders }, v), rw (unset, parse_add_order_mpid), j)
      | inr (cb, set) ↦
          (let k : Keeps3 (some cb) = subst Keeps3 set keep.add_order_mpid in
            let out =
              load_and_call add_order_mpid_layout msg (record s { add_orders = inc64 s.add_orders })
                (λ raw ts.
                  cb (view_add_order_mpid raw) ts
                    (convert_price (ntoh32 (view_add_order_mpid raw).price))
                    (ntoh32 (view_add_order_mpid raw).shares) v)
                refl bytes h
                (λ raw ts b.
                  k (view_add_order_mpid raw) ts _ _ v b
                    (convert_price-lt (view_add_order_mpid raw).price)
                    (ntoh32-lt (view_add_order_mpid raw).shares) j) in
            (out.0, rw (set, parse_add_order_mpid) out.1, out.2))
    ]

    pub order_executed_returns :
        sizeof order_executed_layout ≤ length msg
        → (r : Stats × V) × (parse_order_executed cbs s msg v ≡ some r) × J r.1
    unfolding parse_order_executed view_order_executed
    order_executed_returns h = elim (Option-cases cbs.order_executed) [
      | inl unset ↦ (
        (record s { order_executed = inc64 s.order_executed }, v),
        rw (unset, parse_order_executed),
        j,
      )
      | inr (cb, set) ↦
          (let k : Keeps1 (some cb) = subst Keeps1 set keep.order_executed in
            let out =
              load_and_call order_executed_layout msg
                (record s { order_executed = inc64 s.order_executed })
                (λ raw ts. cb (view_order_executed raw) ts v) refl bytes h
                (λ raw ts b. k (view_order_executed raw) ts v b j) in
            (out.0, rw (set, parse_order_executed) out.1, out.2))
    ]

    pub order_executed_with_price_returns :
        sizeof order_executed_with_price_layout ≤ length msg
        → (r : Stats × V) × (parse_order_executed_with_price cbs s msg v ≡ some r) × J r.1
    unfolding parse_order_executed_with_price view_order_executed_with_price
    order_executed_with_price_returns h = elim (Option-cases cbs.order_executed_with_price) [
      | inl unset ↦ (
        (record s { order_executed = inc64 s.order_executed }, v),
        rw (unset, parse_order_executed_with_price),
        j,
      )
      | inr (cb, set) ↦
          (let k : Keeps2 (some cb) = subst Keeps2 set keep.order_executed_with_price in
            let out =
              load_and_call order_executed_with_price_layout msg
                (record s { order_executed = inc64 s.order_executed })
                (λ raw ts.
                  cb (view_order_executed_with_price raw) ts
                    (convert_price (ntoh32 (view_order_executed_with_price raw).execution_price)) v)
                refl bytes h
                (λ raw ts b.
                  k (view_order_executed_with_price raw) ts _ v b
                    (convert_price-lt (view_order_executed_with_price raw).execution_price) j) in
            (out.0, rw (set, parse_order_executed_with_price) out.1, out.2))
    ]

    pub order_cancel_returns :
        sizeof order_cancel_layout ≤ length msg
        → (r : Stats × V) × (parse_order_cancel cbs s msg v ≡ some r) × J r.1
    unfolding parse_order_cancel view_order_cancel
    order_cancel_returns h = elim (Option-cases cbs.order_cancel) [
      | inl unset ↦ (
        (record s { order_cancelled = inc64 s.order_cancelled }, v),
        rw (unset, parse_order_cancel),
        j,
      )
      | inr (cb, set) ↦
          (let k : Keeps1 (some cb) = subst Keeps1 set keep.order_cancel in
            let out =
              load_and_call order_cancel_layout msg
                (record s { order_cancelled = inc64 s.order_cancelled })
                (λ raw ts. cb (view_order_cancel raw) ts v) refl bytes h
                (λ raw ts b. k (view_order_cancel raw) ts v b j) in
            (out.0, rw (set, parse_order_cancel) out.1, out.2))
    ]

    pub order_delete_returns :
        sizeof order_delete_layout ≤ length msg
        → (r : Stats × V) × (parse_order_delete cbs s msg v ≡ some r) × J r.1
    unfolding parse_order_delete view_order_delete
    order_delete_returns h = elim (Option-cases cbs.order_delete) [
      | inl unset ↦ (
        (record s { order_deleted = inc64 s.order_deleted }, v),
        rw (unset, parse_order_delete),
        j,
      )
      | inr (cb, set) ↦
          (let k : Keeps1 (some cb) = subst Keeps1 set keep.order_delete in
            let out =
              load_and_call order_delete_layout msg
                (record s { order_deleted = inc64 s.order_deleted })
                (λ raw ts. cb (view_order_delete raw) ts v) refl bytes h
                (λ raw ts b. k (view_order_delete raw) ts v b j) in
            (out.0, rw (set, parse_order_delete) out.1, out.2))
    ]

    pub order_replace_returns :
        sizeof order_replace_layout ≤ length msg
        → (r : Stats × V) × (parse_order_replace cbs s msg v ≡ some r) × J r.1
    unfolding parse_order_replace view_order_replace
    order_replace_returns h = elim (Option-cases cbs.order_replace) [
      | inl unset ↦ (
        (record s { order_replaced = inc64 s.order_replaced }, v),
        rw (unset, parse_order_replace),
        j,
      )
      | inr (cb, set) ↦
          (let k : Keeps3 (some cb) = subst Keeps3 set keep.order_replace in
            let out =
              load_and_call order_replace_layout msg
                (record s { order_replaced = inc64 s.order_replaced })
                (λ raw ts.
                  cb (view_order_replace raw) ts
                    (convert_price (ntoh32 (view_order_replace raw).price))
                    (ntoh32 (view_order_replace raw).shares) v)
                refl bytes h
                (λ raw ts b.
                  k (view_order_replace raw) ts _ _ v b
                    (convert_price-lt (view_order_replace raw).price)
                    (ntoh32-lt (view_order_replace raw).shares) j) in
            (out.0, rw (set, parse_order_replace) out.1, out.2))
    ]

    pub trade_returns :
        sizeof trade_layout ≤ length msg
        → (r : Stats × V) × (parse_trade cbs s msg v ≡ some r) × J r.1
    unfolding parse_trade view_trade
    trade_returns h = elim (Option-cases cbs.trade) [
      | inl unset ↦ ((record s { trades = inc64 s.trades }, v), rw (unset, parse_trade), j)
      | inr (cb, set) ↦
          (let k : Keeps3 (some cb) = subst Keeps3 set keep.trade in
            let out =
              load_and_call trade_layout msg (record s { trades = inc64 s.trades })
                (λ raw ts.
                  cb (view_trade raw) ts (convert_price (ntoh32 (view_trade raw).price))
                    (ntoh32 (view_trade raw).shares) v)
                refl bytes h
                (λ raw ts b.
                  k (view_trade raw) ts _ _ v b (convert_price-lt (view_trade raw).price)
                    (ntoh32-lt (view_trade raw).shares) j) in
            (out.0, rw (set, parse_trade) out.1, out.2))
    ]
