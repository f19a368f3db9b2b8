-- ===== src/Idgen/Rising.antt =====
-- pkg/idgen/order_number.go: the order numbers of one generator rise from call to call.
use ticket_hub.Common.{
  ℕ, ◌+◌, ◌*◌, ◌^◌, ◌≤◌, ◌<◌, ℤ, pos, ◌≡◌, refl, inl, inr, Option, none, some, List, [], ◌∷◌, arith,
  All, Option-cases, IsInt64, pos_part, ◌<ℤ◌, subst,
}
use ticket_hub.Errors.{Result, ok, err}
use ticket_hub.Idgen.Snowflake.{Snowflake, default_epoch_ms}
use ticket_hub.Idgen.OrderNumber.{OrderNumberGenerator, next_order_number}
use ticket_hub.Idgen.Numbers.{layout, IsValid}
use ticket_hub.Idgen.Issued.{Fields}
use ticket_hub.Idgen.Calls.{place, Call, next_order_number-Call}

-- A number of the node that was issued at the place `q`.
record Numbered (node q : ℕ) (n : ℤ) : Type 0 where
  timestamp : ℕ
  sequence : ℕ
  gene : ℕ
  number_lem : n ≡ pos (layout timestamp node sequence gene)
  place_lem : q ≡ (timestamp + pos_part default_epoch_ms + 2 ^ 44) * 512 + sequence
  sequence_small : sequence ≤ 511
  gene_small : gene < 1024

Numbered-lt :
    {node q r : ℕ} {n m : ℤ} → Numbered node q n → Numbered node r m → node ≤ 15 → q < r → n <ℤ m
Numbered-lt a b h lt = rw (a.number_lem, b.number_lem) (omega arith)

Fields-Numbered :
    {node : ℕ} {g : OrderNumberGenerator} {u n : ℤ} → Fields node g u n → Numbered node (place g) n
Fields-Numbered f = record {
  timestamp = f.timestamp;
  sequence = f.sequence;
  gene = f.gene;
  number_lem = f.number_lem;
  place_lem = rw f.sequence_lem (omega arith);
  sequence_small = f.sequence_small;
  gene_small = f.gene_small;
}

-- The numbers of the calls that succeeded.
abbrev pub issued_numbers : List (Result ℤ) → List ℤ
issued_numbers [] = []
issued_numbers (ok n ∷ rs) = n ∷ issued_numbers rs
issued_numbers (err e ∷ rs) = issued_numbers rs

-- Each number is below all that come after it.
abbrev pub Ascending : List ℤ → Type 0
Ascending [] = Unit
Ascending (n ∷ ns) = All (λ m. n <ℤ m) ns × Ascending ns

abbrev Above : ℕ → ℕ → ℤ → Type 0
Above node p n = (q : ℕ) × (p < q) × Numbered node q n

All-Above : (node p p' : ℕ) (ns : List ℤ) → p ≤ p' → All (Above node p') ns → All (Above node p) ns
All-Above node p p' [] h a = tt
All-Above node p p' (n ∷ ns) h a = ((a.0.0, omega arith, a.0.2), All-Above node p p' ns h a.1)

All-lt :
    {node p : ℕ} {n : ℤ} (ns : List ℤ)
    → node ≤ 15
    → Numbered node p n
    → All (Above node p) ns
    → All (λ m. n <ℤ m) ns
All-lt [] h f a = tt
All-lt (m ∷ ns) h f a = (Numbered-lt f a.0.2 h a.0.1, All-lt ns h f a.1)

module _ (clock : ℕ → ℤ) (fuel : ℕ) where
  -- Calls one after the other, as the mutex of the generator makes them.
  unfoldable pub issue_all :
      OrderNumberGenerator → List ℤ → ℕ → Option (List (Result ℤ) × OrderNumberGenerator × ℕ)
  issue_all g [] reading = some ([], g, reading)
  issue_all g (u ∷ us) reading = elim (next_order_number clock fuel g u reading) [
    | none ↦ none
    | some (r, g', next) ↦ elim (issue_all g' us next) [
      | none ↦ none
      | some (rs, g'', last) ↦ some (r ∷ rs, g'', last)
    ]
  ]

module _ (clock : ℕ → ℤ) (sane : (i : ℕ) → IsInt64 (clock i)) (fuel : ℕ) where
  issued_step :
      {ids : Snowflake} {g g' : OrderNumberGenerator} {u : ℤ} (r : Result ℤ) (rs : List (Result ℤ))
      → IsValid ids g
      → Call ids g u r g'
      → All (Above (pos_part ids.node_id) (place g')) (issued_numbers rs)
        × Ascending (issued_numbers rs)
      → All (Above (pos_part ids.node_id) (place g)) (issued_numbers (r ∷ rs))
        × Ascending (issued_numbers (r ∷ rs))
  issued_step (err e) rs v c h = (All-Above _ _ _ _ c.forward h.0, h.1)
  issued_step {g'} (ok n) rs v c h =
      let (fields, up) = c.issued n refl in
      let numbered = Fields-Numbered fields in
      (
        ((place g', up, numbered), All-Above _ _ _ _ c.forward h.0),
        (All-lt _ v.node.1 numbered h.0, h.1),
      )

  issue_all-Above :
      {ids : Snowflake} (us : List ℤ) (g : OrderNumberGenerator) (reading : ℕ)
      {rs : List (Result ℤ)} {g' : OrderNumberGenerator} {last : ℕ}
      → IsValid ids g
      → issue_all clock fuel g us reading ≡ some (rs, g', last)
      → All (Above (pos_part ids.node_id) (place g)) (issued_numbers rs)
        × Ascending (issued_numbers rs)
  unfolding issue_all
  issue_all-Above {ids} [] g reading {rs} v e =
      let none_issued : [] ≡ rs = ground arith in
      subst
        (λ t.
          All (Above (pos_part ids.node_id) (place g)) (issued_numbers t)
          × Ascending (issued_numbers t))
        none_issued (tt, tt)
  issue_all-Above {ids} (u ∷ us) g reading {rs} v e =
      elim (Option-cases (next_order_number clock fuel g u reading)) [
        | inl stuck ↦ ground (arith, stuck)
        | inr ((r, g1, next), called) ↦ elim (Option-cases (issue_all clock fuel g1 us next)) [
          | inl stuck ↦ ground (arith, called, stuck)
          | inr ((rest, g2, last), others) ↦
              let c = next_order_number-Call clock sane fuel g u reading v called in
              let all : r ∷ rest ≡ rs = ground (arith, called, others) in
              subst
                (λ t.
                  All (Above (pos_part ids.node_id) (place g)) (issued_numbers t)
                  × Ascending (issued_numbers t))
                all (issued_step r rest v c (issue_all-Above us g1 next c.valid others))
        ]
      ]

  -- However the calls of a valid generator go, each order number is greater than all the numbers
  -- before it; calls may fail in between. The readings of the clock are `int64`, and the waits for
  -- the clock ended within the fuel.
  pub issue_all-Ascending :
      {ids : Snowflake} (us : List ℤ) (g : OrderNumberGenerator) (reading : ℕ)
      {rs : List (Result ℤ)} {g' : OrderNumberGenerator} {last : ℕ}
      → IsValid ids g
      → issue_all clock fuel g us reading ≡ some (rs, g', last)
      → Ascending (issued_numbers rs)
  issue_all-Ascending us g reading v e = (issue_all-Above us g reading v e).1
