-- ===== src/Sharding/GeneRouter.antt =====
-- pkg/sharding/order_router.go.
pub mod Catalog
use ticket_hub.Common.{
  ◌/◌, ◌%◌, get_elem?, ℕ, zero, suc, ◌+◌, ℤ, pos, String, eqb_ℤ, if◌then◌else◌, pos_part, quotient,
  remainder, List, [], ◌∷◌, ◌++◌,
}
use ticket_hub.Idgen.OrderNumber.{user_gene, extract_user_gene}
use ticket_hub.Sharding.Location.{Location, location, or_one}

pub record GeneOrderRouter : Type 0 where
  pub db_prefix : String
  pub table_prefix : String
  pub db_count : ℤ
  pub table_count : ℤ

-- `NewGeneOrderRouter`
unfoldable pub new_gene_order_router : String → String → ℤ → ℤ → GeneOrderRouter
new_gene_order_router db_prefix table_prefix db_count table_count = record {
  db_prefix = db_prefix;
  table_prefix = table_prefix;
  db_count = db_count;
  table_count = table_count;
}

-- The gene that decides: the order number's, or the user's where that is 0.
unfoldable pub deciding_gene : ℤ → ℤ → ℤ
deciding_gene order_number user_id =
    if eqb_ℤ (extract_user_gene order_number) (pos 0)
    then user_gene user_id
    else extract_user_gene order_number

unfoldable pub location_of_gene : GeneOrderRouter → ℤ → Location
location_of_gene r gene =
    let dbs = pos_part (or_one r.db_count) in
    let tables = pos_part (or_one r.table_count) in
    location r.db_prefix r.table_prefix (remainder (quotient gene tables) dbs)
      (remainder gene tables)

-- `RouteOrder`
unfoldable pub route_order : GeneOrderRouter → ℤ → ℤ → Location
route_order r order_number user_id = location_of_gene r (deciding_gene order_number user_id)

-- `RouteOrderWrites`
unfoldable pub route_order_writes : GeneOrderRouter → ℤ → ℤ → List Location
route_order_writes r order_number user_id = route_order r order_number user_id ∷ []

-- The inner loop of `PrimaryLocations`: `n` tables from `tbl` on.
unfoldable pub tables_from : GeneOrderRouter → ℕ → ℕ → ℕ → List Location
tables_from r db zero tbl = []
tables_from r db (suc n) tbl =
    location r.db_prefix r.table_prefix (pos db) (pos tbl) ∷ tables_from r db n (tbl + 1)

-- The outer loop: `n` databases from `db` on.
unfoldable pub databases_from : GeneOrderRouter → ℕ → ℕ → ℕ → List Location
unfolding tables_from
databases_from r tables zero db = []
databases_from r tables (suc n) db = tables_from r db tables 0 ++ databases_from r tables n (db + 1)

-- `PrimaryLocations`
unfoldable pub primary_locations : GeneOrderRouter → List Location
unfolding databases_from
primary_locations r =
    databases_from r (pos_part (or_one r.table_count)) (pos_part (or_one r.db_count)) 0
