-- ===== src/Sharding/MappingRouter/Routes.antt =====
-- pkg/sharding/mapping_router.go: the table of mappings stays valid, and reads, writes and the
-- catalogue agree on where an order is.
use ticket_hub.Common.{
  neg_part-zero, pos_of, add64-pos, mul64-pos, add64, mul64, ap, sym, ◌*◌, ℕ, zero, suc, ◌+◌, ◌*◌,
  ◌^◌, ◌<◌, ℤ, pos, ◌≡◌, refl, sym, ap, subst, ◌∙◌, ◌⊎◌, inl, inr, true, false, ◌&&◌, ◌||◌, none,
  some, List, [], ◌∷◌, arith, Bool-cases, Option-cases, ◌==◌, nat_eq, string_eq, int_eq, get_elem?,
  All, pos_part, ◌≤ℤ◌, ◌<ℤ◌, ltb_ℤ, leb_ℤ, add64, mul64,
}
use ticket_hub.Common.Dict.{Dict, lookup, insert, All-insert, All-lookup}
use ticket_hub.Errors.{ok, Result-cases}
use ticket_hub.Sharding.Location.{Location, or_one, or_one_pos}
use ticket_hub.Sharding.GeneRouter
use ticket_hub.Sharding.GeneRouter.{GeneOrderRouter}
use ticket_hub.Sharding.GeneRouter.Catalog.{shard_of, route_order-get_elem?, route_order_in_range}
use ticket_hub.Sharding.MappingRouter.{
  MappingOrderRouter, ShardMapping, is_supported, is_dual, is_none, check_mapping, build_mappings,
  replace_mappings, virtual_shard_count, route_virtual_shard, route, route_writes, write_locations,
  current_locations, primary_locations,
}

-- What `ReplaceMappings` asks of a row, on the row as it is stored.
pub record IsValidMapping (maximum : ℤ) (m : ShardMapping) : Type 0 where
  pub low : ltb_ℤ m.virtual_shard (pos 0) ≡ false
  pub high : leb_ℤ maximum m.virtual_shard ≡ false
  pub located : m.primary.database == "" || m.primary.table == "" ≡ false
  pub supported : is_supported m.write_mode ≡ true
  pub shadowed : is_dual m.write_mode && is_none m.shadow ≡ false

-- Every mapping is valid and stands under its own virtual shard.
abbrev pub IsValid : MappingOrderRouter → Type 0
IsValid r =
    All (λ e. (e.0 ≡ e.1.virtual_shard) × IsValidMapping (virtual_shard_count r.fallback) e.1)
      r.mappings

check_mapping-IsValidMapping :
    (maximum : ℤ) (m : ShardMapping) {stored : ShardMapping}
    → check_mapping maximum m ≡ ok stored
    → IsValidMapping maximum stored
unfolding check_mapping
check_mapping-IsValidMapping maximum m e = record {
  low = ground arith;
  high = ground arith;
  located = ground arith;
  supported = ground arith;
  shadowed = ground arith;
}

build_mappings-All :
    (maximum : ℤ) (ms : List ShardMapping) (next : Dict ℤ ShardMapping)
    {built : Dict ℤ ShardMapping}
    → All (λ e. (e.0 ≡ e.1.virtual_shard) × IsValidMapping maximum e.1) next
    → build_mappings maximum ms next ≡ ok built
    → All (λ e. (e.0 ≡ e.1.virtual_shard) × IsValidMapping maximum e.1) built
unfolding build_mappings
build_mappings-All maximum [] next {built} a e =
    subst (All (λ e. (e.0 ≡ e.1.virtual_shard) × IsValidMapping maximum e.1)) (ground (arith, e)) a
build_mappings-All maximum (m ∷ ms) next a e = elim (Result-cases (check_mapping maximum m)) [
  | inl (x, refused) ↦ absurd (ground (arith, refused))
  | inr (stored, checked) ↦
      build_mappings-All maximum ms (insert stored.virtual_shard stored next)
        (All-insert _ stored.virtual_shard stored next
          (refl, check_mapping-IsValidMapping maximum m checked) a)
        (ground (arith, checked))
]

-- A refresh keeps a valid table valid whatever rows it is given: a bad row leaves the router as it
-- was, with an error, and otherwise each new mapping names a shard of the router, has a primary
-- location and a supported mode, and has a shadow if it is in dual write.
pub replace_mappings-IsValid :
    (now : ℤ) (ms : List ShardMapping) (r : MappingOrderRouter)
    → IsValid r
    → let (error, r') = replace_mappings now ms r in IsValid r' × ((error ≡ none) ⊎ (r' ≡ r))
unfolding replace_mappings
replace_mappings-IsValid now ms r v =
    elim (Result-cases (build_mappings (virtual_shard_count r.fallback) ms [])) [
      | inl (x, refused) ↦ rw (refused, replace_mappings) (v, inr refl)
      | inr (next, built) ↦
          rw (built, replace_mappings) (build_mappings-All _ ms [] tt built, inl refl)
    ]

-- With a valid table, the first write goes to where reads go; a second one goes to the shadow of the
-- mapping, exactly while the mapping is in dual write.
pub route_writes-route :
    (r : MappingOrderRouter) (order_number user_id : ℤ)
    → IsValid r
    → let shard = (route_virtual_shard r order_number user_id).0 in
      ((route_writes r order_number user_id ≡ route r order_number user_id ∷ [])
        × ((lookup shard r.mappings ≡ none)
            ⊎ ((m : ShardMapping) × (lookup shard r.mappings ≡ some m)
                × (is_dual m.write_mode ≡ false))))
      ⊎ ((m : ShardMapping) × (shadow : Location) × (lookup shard r.mappings ≡ some m)
          × (is_dual m.write_mode ≡ true)
          × (m.shadow ≡ some shadow)
          × (route_writes r order_number user_id ≡ route r order_number user_id ∷ shadow ∷ []))
unfolding route route_writes write_locations
route_writes-route r order_number user_id v =
    let shard = (route_virtual_shard r order_number user_id).0 in
    elim (Option-cases (lookup shard r.mappings)) [
      | inl free ↦ inl (ground (arith, free), inl free)
      | inr (m, mapped) ↦
          let valid = (All-lookup _ shard r.mappings v mapped).1 in
          elim (Bool-cases (is_dual m.write_mode)) [
            | inl dual ↦ elim (Option-cases m.shadow) [
              | inl missing ↦ absurd (ground (arith, dual, missing, valid.shadowed))
              | inr (shadow, there) ↦
                  inr (m, shadow, mapped, dual, there, ground (arith, mapped, dual, there))
            ]
            | inr single ↦ inl (ground (arith, mapped, single), inr (m, mapped, single))
          ]
    ]

get_elem?-current_locations :
    (ms : Dict ℤ ShardMapping) (shard i : ℕ) (ls : List Location) {l : Location}
    → get_elem? ls i ≡ some l
    → get_elem? (current_locations ms shard ls) i
      ≡ some (elim (lookup (pos (shard + i)) ms) [ some m ↦ m.primary | none ↦ l ])
unfolding current_locations
get_elem?-current_locations ms shard zero [] h = cc
get_elem?-current_locations ms shard (suc i) [] h = cc
get_elem?-current_locations ms shard zero (x ∷ ls) h =
    let at : shard + 0 ≡ shard = omega arith in rw at (ground arith)
get_elem?-current_locations ms shard (suc i) (x ∷ ls) h =
    let at : shard + suc i ≡ shard + 1 + i = omega arith in
    rw at (get_elem?-current_locations ms (shard + 1) i ls h)

cong_add64-mul64 :
    {a b c a' b' c' : ℤ} → a ≡ a' → b ≡ b' → c ≡ c' → add64 (mul64 a b) c ≡ add64 (mul64 a' b') c'
cong_add64-mul64 p q r = cc

shard_small :
    (d t dbs tables : ℕ) → d < dbs → t < tables → dbs * tables < 2 ^ 63 → d * tables + t < 2 ^ 63
shard_small d t dbs tables hd ht fits =
    let inside : d * tables + t < dbs * tables = grind arith in omega arith

-- On indices within counts whose product fits an `int`, the number of the shard is computed
-- without wrapping around.
shard_exact :
    (r : GeneOrderRouter) (l : Location)
    → pos_part (or_one r.db_count) * pos_part (or_one r.table_count) < 2 ^ 63
    → (pos 0 ≤ℤ l.db_index)
      × (l.db_index <ℤ or_one r.db_count)
      × (pos 0 ≤ℤ l.tbl_index)
      × (l.tbl_index <ℤ or_one r.table_count)
    → add64 (mul64 l.db_index (or_one r.table_count)) l.tbl_index ≡ pos (shard_of r l)
shard_exact r l fits (db_nonneg, db_small, tbl_nonneg, tbl_small) =
    let db_sign = neg_part-zero l.db_index db_nonneg in
    let tbl_sign = neg_part-zero l.tbl_index tbl_nonneg in
    let small =
      shard_small (pos_part l.db_index) (pos_part l.tbl_index) (pos_part (or_one r.db_count))
        (pos_part (or_one r.table_count)) (omega (arith, or_one_pos r.db_count))
        (omega (arith, or_one_pos r.table_count)) fits in
    cong_add64-mul64 (pos_of l.db_index db_sign)
      (pos_of (or_one r.table_count) (or_one_pos r.table_count).1) (pos_of l.tbl_index tbl_sign)
    ∙ ap (λ t. add64 t (pos (pos_part l.tbl_index)))
        (mul64-pos (pos_part l.db_index) (pos_part (or_one r.table_count)) (omega arith))
    ∙ add64-pos _ (pos_part l.tbl_index) small

-- The catalogue that a scan over all shards visits holds the current location of every order, if
-- the number of shards fits an `int`.
pub route-primary_locations :
    (r : MappingOrderRouter) (order_number user_id : ℤ)
    → pos_part (or_one r.fallback.db_count) * pos_part (or_one r.fallback.table_count) < 2 ^ 63
    → (k : ℕ) × (get_elem? (primary_locations r) k ≡ some (route r order_number user_id))
unfolding primary_locations route
route-primary_locations r order_number user_id fits =
    let fallback = GeneRouter.route_order r.fallback order_number user_id in
    let k = shard_of r.fallback fallback in
    let here : 0 + k ≡ k = omega arith in
    let exact =
      shard_exact r.fallback fallback fits (route_order_in_range r.fallback order_number user_id) in
    (
      k,
      get_elem?-current_locations r.mappings 0 k _
            (route_order-get_elem? r.fallback order_number user_id)
          ∙ ap
              (λ shard.
                some (elim (lookup shard r.mappings) [ some m ↦ m.primary | none ↦ fallback ]))
              (ap pos here ∙ sym exact),
    )
