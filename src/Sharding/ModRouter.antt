-- ===== src/Sharding/ModRouter.antt =====
-- pkg/sharding/mod_router.go.
use ticket_hub.Common.{
  remainder_nonneg, quotient_nonneg, ◌^◌, ◌-◌, ℤ, pos, negsuc, String, ◌≡◌, ◌≢◌, arith, ltb_ℤ,
  sub64, if◌then◌else◌, pos_part, neg_part, quotient, remainder, ◌<ℤ◌, ◌≤ℤ◌, IsInt64, wrap64, ◌-ℤ◌,
}
use ticket_hub.Sharding.Location.{Location, location, or_one, or_one_pos}

pub record ModRouter : Type 0 where
  pub db_prefix : String
  pub table_prefix : String
  pub db_count : ℤ
  pub table_count : ℤ

-- `if id < 0 { id = -id }`
unfoldable pub magnitude : ℤ → ℤ
magnitude id = if ltb_ℤ id (pos 0) then sub64 (pos 0) id else id

unfoldable pub route : ModRouter → ℤ → Location
route r id =
    let dbs = pos_part (or_one r.db_count) in
    let tables = pos_part (or_one r.table_count) in
    location r.db_prefix r.table_prefix (remainder (magnitude id) dbs)
      (remainder (quotient (magnitude id) dbs) tables)

magnitude_nonneg : (id : ℤ) → IsInt64 id → id ≢ negsuc (2 ^ 63 - 1) → neg_part (magnitude id) ≡ 0
unfolding magnitude wrap64 ◌-ℤ◌
magnitude_nonneg (pos n) small ne = ground arith
magnitude_nonneg (negsuc n) small ne = ground arith

-- Every id but the least `int64` has a database and a table within the counts.
pub route_in_range :
    (r : ModRouter) (id : ℤ)
    → IsInt64 id
    → id ≢ negsuc (2 ^ 63 - 1)
    → (pos 0 ≤ℤ (route r id).db_index)
      × ((route r id).db_index <ℤ or_one r.db_count)
      × (pos 0 ≤ℤ (route r id).tbl_index)
      × ((route r id).tbl_index <ℤ or_one r.table_count)
unfolding route location
route_in_range r id small ne =
    let nonneg = magnitude_nonneg id small ne in
    let dbs = pos_part (or_one r.db_count) in
    let tables = pos_part (or_one r.table_count) in
    let q = quotient (magnitude id) dbs in
    omega (
      arith,
      nonneg,
      or_one_pos r.db_count,
      or_one_pos r.table_count,
      remainder_nonneg (magnitude id) dbs nonneg,
      remainder_nonneg q tables (quotient_nonneg (magnitude id) dbs nonneg).0,
    )
