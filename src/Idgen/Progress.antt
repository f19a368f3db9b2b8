-- ===== src/Idgen/Progress.antt =====
-- pkg/idgen/order_number.go: a call gives its answer as soon as the clock moves on.
use ticket_hub.Common.{
  ℕ, ◌+◌, ◌<◌, ℤ, pos, ◌≡◌, refl, inl, inr, some, arith, Bool-cases, Option-cases, nat_eq,
  string_eq, int_eq, ◌<ℤ◌, ltb_ℤ, eqb_ℤ, add64,
}
use ticket_hub.Errors.{Result, ok, err}
use ticket_hub.Idgen.Clock.{now_ms, wait_next_millis_total}
use ticket_hub.Idgen.Snowflake.{Snowflake}
use ticket_hub.Idgen.OrderNumber.{
  OrderNumberGenerator, order_sequence_mask, order_node_mask, finish, conclude, next_slot,
  next_order_number_of, next_order_number,
}

conclude_total :
    (g : OrderNumberGenerator) (ids : Snowflake) (user_id : ℤ) (slot : Result (ℤ × ℤ) × ℕ)
    → (r : Result ℤ) × (g' : OrderNumberGenerator) × (next : ℕ) × (conclude g ids user_id
          (some slot)
        ≡ some (r, g', next))
unfolding conclude
conclude_total g ids user_id (err e, next) = (err e, g, next, refl)
conclude_total g ids user_id (ok (now, seq), next) =
    ((finish g ids user_id now seq).0, (finish g ids user_id now seq).1, next, refl)

module _ (clock : ℕ → ℤ) (fuel : ℕ) where
  next_slot_total :
      (g : OrderNumberGenerator) (reading k : ℕ)
      → k < fuel
      → now_ms clock reading <ℤ now_ms clock (reading + 1 + k)
      → (slot : Result (ℤ × ℤ) × ℕ) × (next_slot clock fuel g reading ≡ some slot)
  unfolding next_slot
  next_slot_total g reading k inside past = elim (Option-cases (next_slot clock fuel g reading)) [
    | inr (slot, found) ↦ (slot, found)
    | inl stuck ↦
        let (later, next, waited) =
          wait_next_millis_total clock fuel (now_ms clock reading) (reading + 1) k inside past in
        absurd (
          ground (
            arith,
            stuck,
            waited,
            Bool-cases (ltb_ℤ (now_ms clock reading) g.last_ms),
            Bool-cases (eqb_ℤ (now_ms clock reading) g.last_ms),
            Bool-cases (ltb_ℤ order_sequence_mask (add64 g.sequence (pos 1))),
          ))
  ]

  -- A call of `NextOrderNumber` gives an answer, a number or an error, if the clock has a later
  -- millisecond than its first reading within the readings that the fuel allows.
  pub next_order_number_total :
      (g : OrderNumberGenerator) (user_id : ℤ) (reading k : ℕ)
      → k < fuel
      → now_ms clock reading <ℤ now_ms clock (reading + 1 + k)
      → (r : Result ℤ) × (g' : OrderNumberGenerator) × (next : ℕ) × (next_order_number clock fuel g
            user_id reading
          ≡ some (r, g', next))
  unfolding next_order_number next_order_number_of
  next_order_number_total g user_id reading k inside past =
      elim (Option-cases (next_order_number clock fuel g user_id reading)) [
        | inr ((r, g', next), done) ↦ (r, g', next, done)
        | inl stuck ↦ elim (Option-cases g.ids) [
          | inl missing ↦ absurd (ground (arith, stuck, missing))
          | inr (ids, there) ↦
              let (slot, found) = next_slot_total g reading k inside past in
              let (r, g', next, done) = conclude_total g ids user_id slot in
              absurd (
                ground (
                  arith,
                  stuck,
                  there,
                  found,
                  done,
                  Bool-cases (ltb_ℤ order_node_mask ids.node_id),
                ))
        ]
      ]
