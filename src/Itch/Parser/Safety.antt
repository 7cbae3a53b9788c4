-- ===== src/Itch/Parser/Safety.antt =====
-- `Parser` of include/itch5/parser.hpp reads no byte past the message that it is given, and says how
-- many bytes it consumed.
use dpdk_itch5_feedhandler.Prelude.{
  ℕ, ◌≤◌, ◌≡◌, refl, Bool, true, false, some, Bytes, AreBytes, Option, ◌==◌, ltb, get_or, length,
  if◌then◌else◌, inl, inr, Bool-cases, get_elem?-eq-get_or, ltb→le, ==_iff, inc64, arith,
}
use dpdk_itch5_feedhandler.Itch.MsgType
use dpdk_itch5_feedhandler.Itch.Callbacks.{Callbacks}
use dpdk_itch5_feedhandler.Itch.Size.{get_message_size}
use dpdk_itch5_feedhandler.Itch.Parser.{Stats, is_other, dispatch, parse_message}
use dpdk_itch5_feedhandler.Itch.Parser.Reads.{
  KeepCallbacks, add_order_returns, add_order_mpid_returns, order_executed_returns,
  order_executed_with_price_returns, order_cancel_returns, order_delete_returns,
  order_replace_returns, trade_returns,
}

-- The bytes that `parse_message` consumes: all of a known type's, or none.
unfoldable pub consumed : Bytes → ℕ → ℕ
consumed ptr len =
    if ltb len 1
    then 0
    else if ltb len (get_message_size (get_or ptr 0 0))
    then 0
    else get_message_size (get_or ptr 0 0)

-- A message that has the size of its type has the size of the struct that it is cast to.
same_size : (t c n : ℕ) → get_message_size t ≤ n → (t == c) ≡ true → get_message_size c ≤ n
same_size t c n h e = rw (← (==_iff t c).0 e) h

module _ {ℓ κ} {V : Type ℓ} (J : V → Type κ) where
  abbrev Returns : Option (Stats × V) → Type (ℓ ⊔ κ)
  Returns o = (r : Stats × V) × (o ≡ some r) × J r.1

  if-Returns :
      (b : Bool) (x y : Option (Stats × V))
      → (b ≡ true → Returns x)
      → (b ≡ false → Returns y)
      → Returns (if b then x else y)
  if-Returns true x y h k = h refl
  if-Returns false x y h k = k refl

module _ {ℓ κ} {V : Type ℓ} (J : V → Type κ) (cbs : Callbacks V) (keep : KeepCallbacks J cbs) where
  dispatch-Returns :
      (t : ℕ) (s : Stats) (msg : Bytes) (v : V)
      → J v
      → AreBytes msg
      → get_message_size t ≤ length msg
      → Returns J (dispatch cbs t s msg v)
  unfolding dispatch get_message_size
  dispatch-Returns t s msg v j bytes h =
      if-Returns J (t == MsgType.add_order) _ _
        (λ e.
          add_order_returns J cbs keep s msg v j bytes
            (same_size t MsgType.add_order (length msg) h e))
        λ _.
          if-Returns J (t == MsgType.add_order_mpid) _ _
            (λ e.
              add_order_mpid_returns J cbs keep s msg v j bytes
                (same_size t MsgType.add_order_mpid (length msg) h e))
            λ _.
              if-Returns J (t == MsgType.order_executed) _ _
                (λ e.
                  order_executed_returns J cbs keep s msg v j bytes
                    (same_size t MsgType.order_executed (length msg) h e))
                λ _.
                  if-Returns J (t == MsgType.order_executed_with_price) _ _
                    (λ e.
                      order_executed_with_price_returns J cbs keep s msg v j bytes
                        (same_size t MsgType.order_executed_with_price (length msg) h e))
                    λ _.
                      if-Returns J (t == MsgType.order_cancel) _ _
                        (λ e.
                          order_cancel_returns J cbs keep s msg v j bytes
                            (same_size t MsgType.order_cancel (length msg) h e))
                        λ _.
                          if-Returns J (t == MsgType.order_delete) _ _
                            (λ e.
                              order_delete_returns J cbs keep s msg v j bytes
                                (same_size t MsgType.order_delete (length msg) h e))
                            λ _.
                              if-Returns J (t == MsgType.order_replace) _ _
                                (λ e.
                                  order_replace_returns J cbs keep s msg v j bytes
                                    (same_size t MsgType.order_replace (length msg) h e))
                                λ _.
                                  if-Returns J (t == MsgType.trade) _ _
                                    (λ e.
                                      trade_returns J cbs keep s msg v j bytes
                                        (same_size t MsgType.trade (length msg) h e))
                                    λ _.
                                      if-Returns J (is_other t) _ _
                                        (λ _. (
                                          (record s { other_messages = inc64 s.other_messages }, v),
                                          refl,
                                          j,
                                        ))
                                        λ _. (
                                          (
                                            record s {
                                              unknown_messages = inc64 s.unknown_messages;
                                            },
                                            v,
                                          ),
                                          refl,
                                          j,
                                        )

  -- With callbacks that return and keep an invariant, on numbers that fit their types, and with `len` readable bytes, a call returns:
  -- it reads no byte past the message, consumes all of a known and complete message and nothing of
  -- another, and keeps the callbacks' invariant.
  pub parse_message_returns :
      (s : Stats) (ptr : Bytes) (len : ℕ) (v : V)
      → J v
      → AreBytes ptr
      → len ≤ length ptr
      → (r : ℕ × Stats × V) × (parse_message cbs s ptr len v ≡ some r)
        × (r.0 ≡ consumed ptr len)
        × J r.2
  unfolding parse_message consumed
  parse_message_returns s ptr len v j bytes h = elim (Bool-cases (ltb len 1)) [
    | inl short ↦ ((0, s, v), rw short, rw short, j)
    | inr some_byte ↦
        (let t = get_or ptr 0 0 in
          let read = get_elem?-eq-get_or ptr 0 0 (omega (arith, ltb→le _ _ some_byte)) in
          elim (Bool-cases (get_message_size t == 0)) [
            | inl unknown ↦ ((0, s, v), rw (some_byte, read, unknown), ground arith, j)
            | inr known ↦ elim (Bool-cases (ltb len (get_message_size t))) [
              | inl cut ↦ ((0, s, v), rw (some_byte, read, known, cut), rw (some_byte, cut), j)
              | inr whole ↦
                  (let d = dispatch-Returns t s ptr v j bytes (omega (arith, ltb→le _ _ whole)) in
                    (
                      (
                        get_message_size t,
                        record d.0.0 { total_messages = inc64 d.0.0.total_messages },
                        d.0.1,
                      ),
                      rw (some_byte, read, known, whole, d.1),
                      rw (some_byte, whole),
                      d.2,
                    ))
            ]
          ])
  ]
