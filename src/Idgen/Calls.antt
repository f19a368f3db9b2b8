-- ===== src/Idgen/Calls.antt =====
-- pkg/idgen/order_number.go: what one call does to the state of a generator, and
-- the gene that it puts into the number.
use ticket_hub.Common.{
  ℕ, ◌+◌, ◌-◌, ◌*◌, ◌^◌, ◌≤◌, ◌<◌, ℤ, ◌≡◌, refl, Option, none, some, arith, IsInt64, pos_part,
  neg_part, ap, subst, sym, ◌∙◌,
}
use ticket_hub.Errors.{Result, ok, err}
use ticket_hub.Idgen.Clock.{now_ms, now_ms_bounds}
use ticket_hub.Idgen.Snowflake.{Snowflake}
use ticket_hub.Idgen.OrderNumber.{
  OrderNumberGenerator, user_gene, extract_user_gene, finish, conclude, next_order_number_of,
  next_slot, next_order_number,
}
use ticket_hub.Idgen.Numbers.{IsValid, Later, next_slot-Later, extract_user_gene-layout}
use ticket_hub.Idgen.Issued.{Fields, finish-Fields, finish_state}

-- Where the generator stands: its last millisecond, then its sequence.
abbrev pub place : OrderNumberGenerator → ℕ
place g = (pos_part g.last_ms + 2 ^ 44 - neg_part g.last_ms) * 512 + pos_part g.sequence

-- What a call with the result `r` leaves behind.
pub record Call (ids : Snowflake) (g : OrderNumberGenerator) (u : ℤ) (r : Result ℤ)
    (g' : OrderNumberGenerator) : Type 0 where
  pub valid : IsValid ids g'
  pub forward : place g ≤ place g'
  pub issued : (n : ℤ) → r ≡ ok n → Fields (pos_part ids.node_id) g' u n × (place g < place g')

Later-place :
    (ids : Snowflake) (g : OrderNumberGenerator) (now seq : ℤ)
    → IsValid ids g
    → Later g now seq
    → (neg_part now < 2 ^ 44)
    → (neg_part seq ≡ 0)
      × (pos_part seq ≤ 511)
      × (place g < place (record g { last_ms = now; sequence = seq }))
Later-place ids g now seq v l small = ground arith

module _ (clock : ℕ → ℤ) (sane : (i : ℕ) → IsInt64 (clock i)) (fuel : ℕ) where
  finish-Call :
      {ids : Snowflake} (g : OrderNumberGenerator) (u now seq : ℤ) (i : ℕ)
      → IsValid ids g
      → now ≡ now_ms clock i
      → Later g now seq
      → Call ids g u (finish g ids u now seq).0 (finish g ids u now seq).1
  finish-Call {ids} g u now seq i v at later =
      let bounds : (pos_part now < 2 ^ 44) × (neg_part now < 2 ^ 44) =
        subst (λ t. (pos_part t < 2 ^ 44) × (neg_part t < 2 ^ 44)) (sym at)
          (now_ms_bounds clock i (sane i)) in
      let (nonneg, small, up) = Later-place ids g now seq v later bounds.1 in
      subst (Call ids g u (finish g ids u now seq).0)
        (sym (finish_state v u now seq bounds (nonneg, small)))
        (record {
          valid = record {
            source = v.source;
            epoch = v.epoch;
            node = v.node;
            sequence = (nonneg, small);
            last = bounds;
          };
          forward = omega arith;
          issued = λ n e. (finish-Fields v u now seq bounds (nonneg, small) e, up);
        })

  conclude-Call :
      {ids : Snowflake} (g : OrderNumberGenerator) (u : ℤ) (reading : ℕ) {r : Result ℤ}
      {g' : OrderNumberGenerator} {next : ℕ} (s : Option (Result (ℤ × ℤ) × ℕ))
      → IsValid ids g
      → next_slot clock fuel g reading ≡ s
      → conclude g ids u s ≡ some (r, g', next)
      → Call ids g u r g'
  unfolding conclude
  conclude-Call g u reading none v slot e = cc
  conclude-Call {ids} g u reading {r} {g'} (some (err x, n)) v slot e =
      let same : g ≡ g' = ground arith in
      let failed : r ≡ err x = ground arith in
      subst (Call ids g u r) same (record {
        valid = v;
        forward = omega arith;
        issued = λ m won. absurd (ground (arith, failed, won));
      })
  conclude-Call {ids} g u reading {r} {g'} (some (ok (now, seq), n)) v slot e =
      let (later, i, at) = next_slot-Later clock fuel g reading v.sequence slot in
      let fst : (finish g ids u now seq).0 ≡ r = ground arith in
      let snd : (finish g ids u now seq).1 ≡ g' = ground arith in
      subst (Call ids g u r) snd (
        subst (λ t. Call ids g u t (finish g ids u now seq).1) fst
          (finish-Call g u now seq i v at later))

  valid_call :
      {ids : Snowflake} (g : OrderNumberGenerator) (u : ℤ) (reading : ℕ)
      → IsValid ids g
      → next_order_number clock fuel g u reading ≡ next_order_number_of clock fuel g ids u reading
  unfolding next_order_number
  valid_call g u reading v = ground arith

  pub next_order_number-Call :
      {ids : Snowflake} (g : OrderNumberGenerator) (u : ℤ) (reading : ℕ) {r : Result ℤ}
      {g' : OrderNumberGenerator} {next : ℕ}
      → IsValid ids g
      → next_order_number clock fuel g u reading ≡ some (r, g', next)
      → Call ids g u r g'
  unfolding next_order_number_of
  next_order_number-Call g u reading v e =
      conclude-Call g u reading (next_slot clock fuel g reading) v refl
        (sym (valid_call g u reading v) ∙ e)

  -- An order number that a valid generator gives for a user carries the gene of that user. The
  -- readings of the clock are `int64`.
  pub extract_user_gene-next_order_number :
      {ids : Snowflake} (g : OrderNumberGenerator) (u : ℤ) (reading : ℕ) {number : ℤ}
      {g' : OrderNumberGenerator} {next : ℕ}
      → IsValid ids g
      → next_order_number clock fuel g u reading ≡ some (ok number, g', next)
      → extract_user_gene number ≡ user_gene u
  extract_user_gene-next_order_number g u reading {number} v e =
      let fields = ((next_order_number-Call g u reading v e).issued number refl).0 in
      ap extract_user_gene fields.number_lem
      ∙ extract_user_gene-layout _ _ _ _ fields.timestamp_small v.node.1 fields.sequence_small
          fields.gene_small
      ∙ sym fields.gene_lem
