-- ===== src/Idgen/Issued.antt =====
-- pkg/idgen/order_number.go: a successful call puts the timestamp, the node, the sequence and the
-- user's gene side by side.
use ticket_hub.Common.{
  pos_of, ℕ, ◌+◌, ◌-◌, ◌^◌, ◌≤◌, ◌<◌, ℤ, pos, ◌≡◌, arith, ltb_ℤ, sub64, wrap64, pos_part, neg_part,
  false, ◌-ℤ◌, subst, sym, ◌∙◌,
}
use ticket_hub.Errors.{ok}
use ticket_hub.Idgen.Snowflake.{Snowflake, default_epoch_ms}
use ticket_hub.Idgen.OrderNumber.{
  OrderNumberGenerator, user_gene, pack, finish, order_timestamp_mask,
}
use ticket_hub.Idgen.Numbers.{layout, pack-layout, user_gene_small, IsValid}

-- What a successful call is about: the timestamp and the sequence that the generator now holds.
pub record Fields (node : ℕ) (g' : OrderNumberGenerator) (user number : ℤ) : Type 0 where
  pub timestamp : ℕ
  pub sequence : ℕ
  pub gene : ℕ
  pub number_lem : number ≡ pos (layout timestamp node sequence gene)
  pub gene_lem : user_gene user ≡ pos gene
  pub timestamp_small : timestamp < 2 ^ 40
  pub sequence_small : sequence ≤ 511
  pub gene_small : gene < 1024
  pub last_lem :
      (neg_part g'.last_ms ≡ 0) × (pos_part g'.last_ms ≡ timestamp + pos_part default_epoch_ms)
  pub sequence_lem : g'.sequence ≡ pos sequence

timestamp_exact :
    (now : ℤ)
    → pos_part now < 2 ^ 44
    → neg_part now < 2 ^ 44
    → ltb_ℤ (sub64 now default_epoch_ms) (pos 0) ≡ false
    → sub64 now default_epoch_ms ≡ pos (pos_part now - pos_part default_epoch_ms)
      × (neg_part now ≡ 0)
      × (pos_part default_epoch_ms ≤ pos_part now)
unfolding ◌-ℤ◌ wrap64
timestamp_exact now p q h = ground arith

pack_cong :
    {a b c d a' b' c' d' : ℤ} → a ≡ a' → b ≡ b' → c ≡ c' → d ≡ d' → pack a b c d ≡ pack a' b' c' d'
pack_cong p q r s = cc

stamp_small : {a : ℤ} {n : ℕ} → a ≡ pos n → ltb_ℤ order_timestamp_mask a ≡ false → n < 2 ^ 40
stamp_small e h = ground arith

module _ {ids : Snowflake} {g : OrderNumberGenerator} (v : IsValid ids g) (u now seq : ℤ)
    (now_small : (pos_part now < 2 ^ 44) × (neg_part now < 2 ^ 44))
    (seq_small : (neg_part seq ≡ 0) × (pos_part seq ≤ 511)) where
  pub finish_state : (finish g ids u now seq).1 ≡ record g { last_ms = now; sequence = seq }
  unfolding finish
  finish_state = ground arith

  finish-ok :
      {number : ℤ}
      → (finish g ids u now seq).0 ≡ ok number
      → (ltb_ℤ (sub64 now ids.epoch_ms) (pos 0) ≡ false)
        × (ltb_ℤ order_timestamp_mask (sub64 now ids.epoch_ms) ≡ false)
        × (number ≡ pack (sub64 now ids.epoch_ms) ids.node_id seq (user_gene u))
  unfolding finish
  finish-ok e = ground arith

  pub finish-Fields :
      {number : ℤ}
      → (finish g ids u now seq).0 ≡ ok number
      → Fields (pos_part ids.node_id) (record g { last_ms = now; sequence = seq }) u number
  finish-Fields e =
      let (low, high, built) = finish-ok e in
      let (exact, nonneg, after) =
        timestamp_exact now now_small.0 now_small.1
          (subst (λ t. ltb_ℤ (sub64 now t) (pos 0) ≡ false) v.epoch low) in
      let (gene, is_gene, small) = user_gene_small u in
      let stamp : sub64 now ids.epoch_ms ≡ pos (pos_part now - pos_part default_epoch_ms) =
        subst (λ t. sub64 now t ≡ pos (pos_part now - pos_part default_epoch_ms)) (sym v.epoch)
          exact in
      let fits : pos_part now - pos_part default_epoch_ms < 2 ^ 40 =
        omega (arith, stamp_small stamp high) in
      record {
        timestamp = pos_part now - pos_part default_epoch_ms;
        sequence = pos_part seq;
        gene = gene;
        number_lem =
            built
            ∙ pack_cong stamp (pos_of ids.node_id v.node.0) (pos_of seq seq_small.0) is_gene
            ∙ pack-layout _ _ _ _ fits v.node.1 seq_small.1 small;
        gene_lem = is_gene;
        timestamp_small = fits;
        sequence_small = seq_small.1;
        gene_small = small;
        last_lem = (nonneg, omega arith);
        sequence_lem = pos_of seq seq_small.0;
      }
