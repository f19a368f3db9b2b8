-- ===== src/Idgen/OrderNumber.antt =====
-- pkg/idgen/order_number.go.
use ticket_hub.Common.{
  ℕ, ◌+◌, ℤ, pos, Option, none, some, [], ◌∷◌, ltb_ℤ, eqb_ℤ, add64, sub64, ◌||◌, if◌then◌else◌,
}
use ticket_hub.Common.Bits.{shl64, or64, and64}
use ticket_hub.Errors.{errorf, num, Result, ok, err}
use ticket_hub.Idgen.Clock.{now_ms, wait_next_millis}
use ticket_hub.Idgen.Snowflake.{Snowflake}

abbrev pub user_gene_mask : ℤ
user_gene_mask = pos 1023

abbrev pub order_sequence_mask : ℤ
order_sequence_mask = pos 511

abbrev pub order_node_mask : ℤ
order_node_mask = pos 15

abbrev pub order_timestamp_mask : ℤ
order_timestamp_mask = pos 1_099_511_627_775

abbrev pub order_sequence_shift : ℕ
order_sequence_shift = 10

abbrev pub order_node_shift : ℕ
order_node_shift = 19

abbrev pub order_timestamp_shift : ℕ
order_timestamp_shift = 23

pub record OrderNumberGenerator : Type 0 where
  pub ids : Option Snowflake
  pub last_ms : ℤ
  pub sequence : ℤ

-- `NewOrderNumberGenerator`
unfoldable pub new_order_number_generator : Option Snowflake → OrderNumberGenerator
new_order_number_generator ids = record { ids = ids; last_ms = pos 0; sequence = pos 0 }

-- `-userID` wraps at the least `int64`.
unfoldable pub user_gene : ℤ → ℤ
user_gene user_id =
    if ltb_ℤ user_id (pos 0)
    then and64 (sub64 (pos 0) user_id) user_gene_mask
    else and64 user_id user_gene_mask

unfoldable pub extract_user_gene : ℤ → ℤ
extract_user_gene order_number = and64 order_number user_gene_mask

abbrev pub pack : ℤ → ℤ → ℤ → ℤ → ℤ
pack timestamp node seq gene =
    or64
      (or64 (or64 (shl64 timestamp order_timestamp_shift) (shl64 node order_node_shift))
        (shl64 seq order_sequence_shift))
      gene

-- The end of `NextOrderNumber`, from the assignment of `lastMS`.
unfoldable pub finish :
    OrderNumberGenerator → Snowflake → ℤ → ℤ → ℤ → Result ℤ × OrderNumberGenerator
unfolding user_gene
finish g ids user_id now seq =
    let timestamp = sub64 now ids.epoch_ms in
    let g' = record g { last_ms = now; sequence = seq } in
    if ltb_ℤ timestamp (pos 0) || ltb_ℤ order_timestamp_mask timestamp
    then (
      err (errorf "order number timestamp is outside the supported range: %d" (num timestamp ∷ [])),
      g',
    )
    else (ok (pack timestamp ids.node_id seq (user_gene user_id)), g')

unfoldable pub conclude :
    OrderNumberGenerator
    → Snowflake
    → ℤ
    → Option (Result (ℤ × ℤ) × ℕ)
    → Option (Result ℤ × OrderNumberGenerator × ℕ)
conclude g ids user_id none = none
conclude g ids user_id (some (err e, next)) = some (err e, g, next)
conclude g ids user_id (some (ok (now, seq), next)) =
    some ((finish g ids user_id now seq).0, (finish g ids user_id now seq).1, next)

module _ (clock : ℕ → ℤ) (fuel : ℕ) where
  -- The part of `NextOrderNumber` from the reading of the clock to the millisecond and the sequence
  -- of the number; `none` if the wait for the next millisecond used up its fuel.
  unfoldable pub next_slot : OrderNumberGenerator → ℕ → Option (Result (ℤ × ℤ) × ℕ)
  next_slot g reading =
      let now = now_ms clock reading in
      let seq = add64 g.sequence (pos 1) in
      if ltb_ℤ now g.last_ms
      then some (
        err (errorf "clock moved backwards: now=%d last=%d" (num now ∷ num g.last_ms ∷ [])),
        reading + 1,
      )
      else if eqb_ℤ now g.last_ms
      then if ltb_ℤ order_sequence_mask seq
        then elim (wait_next_millis clock fuel now (reading + 1)) [
          | none ↦ none
          | some (later, next) ↦ some (ok (later, pos 0), next)
        ]
        else some (ok (now, seq), reading + 1)
      else some (ok (now, pos 0), reading + 1)

  -- `NextOrderNumber` for a node that may issue order numbers.
  unfoldable pub next_order_number_of :
      OrderNumberGenerator → Snowflake → ℤ → ℕ → Option (Result ℤ × OrderNumberGenerator × ℕ)
  unfolding conclude
  next_order_number_of g ids user_id reading = conclude g ids user_id (next_slot g reading)

  -- `NextOrderNumber`
  unfoldable pub next_order_number :
      OrderNumberGenerator → ℤ → ℕ → Option (Result ℤ × OrderNumberGenerator × ℕ)
  next_order_number g user_id reading = elim g.ids [
    | none ↦ some (err (errorf "snowflake generator is required" []), g, reading)
    | some ids ↦
        if ltb_ℤ order_node_mask ids.node_id
        then some (
          err (errorf "order number node id must be between 0 and %d" (num order_node_mask ∷ [])),
          g,
          reading,
        )
        else next_order_number_of g ids user_id reading
  ]
