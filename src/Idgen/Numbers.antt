-- ===== src/Idgen/Numbers.antt =====
-- pkg/idgen/order_number.go: what an order number is made of, and that numbers rise.
use ticket_hub.Common.{
  ℕ, ◌+◌, ◌*◌, ◌%◌, ◌^◌, ◌≤◌, ◌<◌, ℤ, pos, ◌≡◌, ◌⊎◌, inl, inr, some, arith, ltb_ℤ, eqb_ℤ, add64,
  sub64, Bool-cases, Option-cases, bits64, wrap64, pos_part, neg_part, ◌<ℤ◌, ◌+ℤ◌, ap, ◌∙◌,
  eqb_ℤ_iff,
}
use ticket_hub.Errors.{ok}
use ticket_hub.Idgen.Clock.{now_ms, wait_next_millis, wait_next_millis-lt}
use ticket_hub.Idgen.Fields.{shl64-pos, or64_field, and64_low}
use ticket_hub.Idgen.Snowflake.{Snowflake, default_epoch_ms}
use ticket_hub.Idgen.OrderNumber.{
  OrderNumberGenerator, user_gene, extract_user_gene, pack, next_slot, order_sequence_mask,
}

-- timestamp, node, sequence and gene side by side
abbrev pub layout : ℕ → ℕ → ℕ → ℕ → ℕ
layout t d s g = ((t * 16 + d) * 512 + s) * 1024 + g

pub pack-layout :
    (t d s g : ℕ)
    → t < 2 ^ 40
    → d ≤ 15
    → s ≤ 511
    → g < 1024
    → pack (pos t) (pos d) (pos s) (pos g) ≡ pos (layout t d s g)
pack-layout t d s g ht hd hs hg =
    rw
      (
        shl64-pos t 23 (omega arith) (omega arith),
        shl64-pos d 19 (omega arith) (omega arith),
        shl64-pos s 10 (omega arith) (omega arith),
      )
      (rw (
        or64_field 23 t (d * 2 ^ 19) (omega arith) (omega arith),
        node_field,
        or64_field 19 (t * 16 + d) (s * 2 ^ 10) (omega arith) (omega arith),
        sequence_field,
        or64_field 10 ((t * 16 + d) * 512 + s) g (omega arith) (omega arith),
      ))
  where
    node_field : t * 2 ^ 23 + d * 2 ^ 19 ≡ (t * 16 + d) * 2 ^ 19
    node_field = omega arith

    sequence_field : (t * 16 + d) * 2 ^ 19 + s * 2 ^ 10 ≡ ((t * 16 + d) * 512 + s) * 2 ^ 10
    sequence_field = omega arith

-- the gene of every user, also a negative one, is below 1024
pub user_gene_small : (u : ℤ) → (g : ℕ) × (user_gene u ≡ pos g) × (g < 1024)
unfolding user_gene
user_gene_small u = elim (Bool-cases (ltb_ℤ u (pos 0))) [
  | inl neg ↦ (
    bits64 (sub64 (pos 0) u) % 2 ^ 10,
    rw neg (and64_low 10 (sub64 (pos 0) u) (omega arith)),
    omega arith,
  )
  | inr nonneg ↦ (bits64 u % 2 ^ 10, rw nonneg (and64_low 10 u (omega arith)), omega arith)
]

pub extract_user_gene_small : (n : ℤ) → (g : ℕ) × (extract_user_gene n ≡ pos g) × (g < 1024)
unfolding extract_user_gene
extract_user_gene_small n = (bits64 n % 2 ^ 10, and64_low 10 n (omega arith), omega arith)

pub extract_user_gene-layout :
    (t d s g : ℕ)
    → t < 2 ^ 40
    → d ≤ 15
    → s ≤ 511
    → g < 1024
    → extract_user_gene (pos (layout t d s g)) ≡ pos g
unfolding extract_user_gene
extract_user_gene-layout t d s g ht hd hs hg =
    and64_low 10 (pos (layout t d s g)) (omega arith) ∙ ap pos low
  where
    low : bits64 (pos (layout t d s g)) % 2 ^ 10 ≡ g
    low = omega arith

-- `g` may issue numbers with the identifiers `ids`: its state is what `NextOrderNumber` leaves.
pub record IsValid (ids : Snowflake) (g : OrderNumberGenerator) : Type 0 where
  pub source : g.ids ≡ some ids
  pub epoch : ids.epoch_ms ≡ default_epoch_ms
  pub node : (neg_part ids.node_id ≡ 0) × (pos_part ids.node_id ≤ 15)
  pub sequence : (neg_part g.sequence ≡ 0) × (pos_part g.sequence ≤ 511)
  pub last : (pos_part g.last_ms < 2 ^ 44) × (neg_part g.last_ms < 2 ^ 44)

-- The millisecond and the sequence that a call settles on come after those of the call before.
abbrev pub Later : OrderNumberGenerator → ℤ → ℤ → Type 0
Later g now seq =
    ((g.last_ms <ℤ now) × (seq ≡ pos 0))
    ⊎ ((now ≡ g.last_ms)
        × (neg_part seq ≡ 0)
        × (pos_part seq ≡ pos_part g.sequence + 1)
        × (pos_part seq ≤ 511))

add64_one : (a : ℤ) → neg_part a ≡ 0 → pos_part a ≤ 511 → add64 a (pos 1) ≡ pos (pos_part a + 1)
unfolding ◌+ℤ◌ wrap64
add64_one a nonneg small = ground arith

module _ (clock : ℕ → ℤ) (fuel : ℕ) (g : OrderNumberGenerator) where
  pub next_slot-Later :
      (reading : ℕ) {now seq : ℤ} {next : ℕ}
      → (neg_part g.sequence ≡ 0) × (pos_part g.sequence ≤ 511)
      → next_slot clock fuel g reading ≡ some (ok (now, seq), next)
      → Later g now seq × (i : ℕ) × (now ≡ now_ms clock i)
  unfolding next_slot
  next_slot-Later reading v e = elim (Bool-cases (ltb_ℤ (now_ms clock reading) g.last_ms)) [
    | inl back ↦ ground (arith, back)
    | inr forth ↦ elim (Bool-cases (eqb_ℤ (now_ms clock reading) g.last_ms)) [
      | inl same ↦ elim (Bool-cases (ltb_ℤ order_sequence_mask (add64 g.sequence (pos 1)))) [
        | inl full ↦
            elim (Option-cases (wait_next_millis clock fuel (now_ms clock reading) (reading + 1))) [
              | inl stuck ↦ ground (arith, forth, same, full, stuck)
              | inr ((later, next_reading), waited) ↦
                  let (past, i, at, after_next, from) =
                    wait_next_millis-lt clock fuel (now_ms clock reading) (reading + 1) waited in
                  (
                    inl (
                      ground (arith, forth, same, full, waited, past),
                      ground (arith, forth, same, full, waited),
                    ),
                    i,
                    ground (arith, forth, same, full, waited),
                  )
            ]
        | inr room ↦ (
          inr (
            ground (arith, forth, same, room, eqb_ℤ_iff (now_ms clock reading) g.last_ms),
            ground (arith, forth, same, room, add64_one g.sequence v.0 v.1),
            ground (arith, forth, same, room, add64_one g.sequence v.0 v.1),
            ground (arith, forth, same, room, add64_one g.sequence v.0 v.1),
          ),
          reading,
          ground (arith, forth, same, room),
        )
      ]
      | inr after ↦
          (inl (ground (arith, forth, after), ground arith), reading, ground (arith, forth, after))
    ]
  ]
