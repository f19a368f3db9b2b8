-- ===== src/Sharding/Location.antt =====
-- pkg/sharding/router.go: locations, and the guards on the shard counts.
use ticket_hub.Common.{◌≤◌, ℤ, pos, String, ◌≡◌, arith, leb_ℤ, if◌then◌else◌, pos_part, neg_part}
use ticket_hub.Common.Fmt.{◌<>◌, show_ℤ}

pub record Location : Type 0 where
  pub database : String
  pub table : String
  pub db_index : ℤ
  pub tbl_index : ℤ

-- `fmt.Sprintf("%s_%d", prefix, index)` for the database and for the table.
unfoldable pub location : String → String → ℤ → ℤ → Location
unfolding show_ℤ
location db_prefix table_prefix db_index tbl_index = record {
  database = db_prefix <> "_" <> show_ℤ db_index;
  table = table_prefix <> "_" <> show_ℤ tbl_index;
  db_index = db_index;
  tbl_index = tbl_index;
}

-- `if count <= 0 { count = 1 }`
unfoldable pub or_one : ℤ → ℤ
or_one count = if leb_ℤ count (pos 0) then pos 1 else count

pub or_one_pos : (count : ℤ) → (1 ≤ pos_part (or_one count)) × (neg_part (or_one count) ≡ 0)
unfolding or_one
or_one_pos count = ground arith
