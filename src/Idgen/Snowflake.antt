-- ===== src/Idgen/Snowflake.antt =====
-- pkg/idgen/snowflake.go.
use ticket_hub.Common.{
  ℕ, ◌+◌, ℤ, pos, Option, none, some, [], ◌∷◌, ltb_ℤ, eqb_ℤ, add64, sub64, ◌||◌, if◌then◌else◌,
}
use ticket_hub.Common.Bits.{shl64, or64, and64}
use ticket_hub.Errors.{errorf, num, Result, ok, err}
use ticket_hub.Idgen.Clock.{now_ms, wait_next_millis}

abbrev pub default_epoch_ms : ℤ
default_epoch_ms = pos 1_704_067_200_000

abbrev pub node_id_bits : ℕ
node_id_bits = 10

abbrev pub sequence_bits : ℕ
sequence_bits = 12

abbrev pub max_node_id : ℤ
max_node_id = pos 1023

abbrev pub sequence_mask : ℤ
sequence_mask = pos 4095

-- The clock is a parameter of the operations.
pub record Snowflake : Type 0 where
  pub epoch_ms : ℤ
  pub node_id : ℤ
  pub last_ms : ℤ
  pub sequence : ℤ

-- `NewSnowflakeWithClock`
unfoldable pub new_snowflake : ℤ → Result Snowflake
new_snowflake node =
    if ltb_ℤ node (pos 0) || ltb_ℤ max_node_id node
    then err (errorf "node id must be between 0 and %d" (num max_node_id ∷ []))
    else ok
        (record { epoch_ms = default_epoch_ms; node_id = node; last_ms = pos 0; sequence = pos 0 })

abbrev pub compose : Snowflake → ℤ → ℤ → ℤ
compose g now seq =
    or64
      (or64 (shl64 (sub64 now g.epoch_ms) (node_id_bits + sequence_bits))
        (shl64 g.node_id sequence_bits))
      seq

-- What is left of `NextID` once the millisecond and the sequence are settled.
abbrev pub issue : Snowflake → ℤ → ℤ → ℕ → Option (Result ℤ × Snowflake × ℕ)
issue g now seq reading =
    some (ok (compose g now seq), record g { last_ms = now; sequence = seq }, reading)

module _ (clock : ℕ → ℤ) (fuel : ℕ) where
  -- `NextID`: `none` if the wait for the next millisecond used up its fuel.
  unfoldable pub next_id : Snowflake → ℕ → Option (Result ℤ × Snowflake × ℕ)
  next_id g reading =
      let now = now_ms clock reading in
      let seq = and64 (add64 g.sequence (pos 1)) sequence_mask in
      if ltb_ℤ now g.last_ms
      then some (
        err (errorf "clock moved backwards: now=%d last=%d" (num now ∷ num g.last_ms ∷ [])),
        g,
        reading + 1,
      )
      else if eqb_ℤ now g.last_ms
      then if eqb_ℤ seq (pos 0)
        then elim (wait_next_millis clock fuel now (reading + 1)) [
          | none ↦ none
          | some (later, next) ↦ issue g later seq next
        ]
        else issue g now seq (reading + 1)
      else issue g now (pos 0) (reading + 1)
