-- ===== src/Sharding/Tests.antt =====
-- Runs of the routers of pkg/sharding, and the theorems on them at concrete inputs.
use ticket_hub.Common.{
  int_eq, ℕ, ℤ, pos, negsuc, ◌≡◌, refl, ◌⊎◌, true, false, none, some, [], ◌∷◌, arith, get_elem?,
  ◌≤ℤ◌, ◌<ℤ◌, quotient, remainder, wrap64, ◌*ℤ◌, ◌+ℤ◌,
}
use ticket_hub.Common.Bits.{and64}
use ticket_hub.Common.Dict.{lookup}
use ticket_hub.Idgen.OrderNumber.{user_gene, extract_user_gene}
use ticket_hub.Sharding.Location.{Location, location, or_one}
use ticket_hub.Sharding.ModRouter
use ticket_hub.Sharding.GeneRouter
use ticket_hub.Sharding.GeneRouter.{GeneOrderRouter, route_order, location_of_gene}
use ticket_hub.Sharding.GeneRouter.Catalog.{shard_of, route_order-get_elem?, route_order_by_owner}
use ticket_hub.Sharding.MappingRouter.{
  MappingOrderRouter, ShardMapping, dual_write, unset, is_dual, replace_mappings, route,
  route_writes, route_virtual_shard,
}
use ticket_hub.Sharding.MappingRouter
use ticket_hub.Sharding.MappingRouter.Routes.{
  IsValid, replace_mappings-IsValid, route_writes-route, route-primary_locations,
}

abbrev two_by_three : ModRouter.ModRouter
two_by_three = record {
  db_prefix = "db";
  table_prefix = "t";
  db_count = pos 2;
  table_count = pos 3;
}

route_in_range_example :
    (pos 0 ≤ℤ (ModRouter.route two_by_three (negsuc 6)).db_index)
    × ((ModRouter.route two_by_three (negsuc 6)).db_index <ℤ pos 2)
    × (pos 0 ≤ℤ (ModRouter.route two_by_three (negsuc 6)).tbl_index)
    × ((ModRouter.route two_by_three (negsuc 6)).tbl_index <ℤ pos 3)
unfolding or_one ModRouter.route
route_in_range_example =
    ModRouter.route_in_range two_by_three (negsuc 6) (omega arith) (λ e. ground (arith, e))

abbrev eight : GeneOrderRouter
eight = record { db_prefix = "order"; table_prefix = "d"; db_count = pos 2; table_count = pos 4 }

-- The number carries the gene 5 of the user 1029: database 1, table 1.
abbrev number : ℤ
number = pos 85_458_949

route_order_runs : route_order eight number (pos 1029) ≡ location "order" "d" (pos 1) (pos 1)
unfolding route_order GeneRouter.deciding_gene location_of_gene extract_user_gene user_gene and64
    quotient remainder or_one
route_order_runs = refl

same_gene : extract_user_gene number ≡ user_gene (pos 1029)
unfolding extract_user_gene user_gene and64
same_gene = refl

route_order-get_elem?_example :
    get_elem?
      (GeneRouter.primary_locations eight)
      (shard_of eight (route_order eight number (pos 1029)))
    ≡ some (route_order eight number (pos 1029))
route_order-get_elem?_example = route_order-get_elem? eight number (pos 1029)

route_order_by_owner_example :
    (route_order eight number (pos 1029) ≡ location_of_gene eight (user_gene (pos 1029)))
    × (route_order eight number (pos 0) ≡ location_of_gene eight (user_gene (pos 1029)))
route_order_by_owner_example = route_order_by_owner eight number (pos 1029) same_gene

abbrev moved : Location
moved = location "order_new" "d" (pos 3) (pos 0)

-- Shard 5 is where the order of `number` lives.
abbrev dual : ShardMapping
dual = record {
  virtual_shard = pos 5;
  primary = location "order" "d" (pos 1) (pos 1);
  shadow = some moved;
  write_mode = dual_write;
  version = pos 2;
}

abbrev copying : MappingOrderRouter
copying = record { fallback = eight; mappings = (pos 5, dual) ∷ []; refreshed_at = some (pos 1) }

copying-IsValid : IsValid copying
unfolding MappingRouter.virtual_shard_count wrap64 ◌*ℤ◌ or_one location
copying-IsValid = (
  (refl, record { low = refl; high = refl; located = refl; supported = refl; shadowed = refl }),
  tt,
)

replace_mappings-IsValid_example :
    let (error, r') = replace_mappings (pos 9) (record dual { write_mode = unset } ∷ []) copying in
    IsValid r' × ((error ≡ none) ⊎ (r' ≡ copying))
replace_mappings-IsValid_example =
    replace_mappings-IsValid (pos 9) (record dual { write_mode = unset } ∷ []) copying
      copying-IsValid

route_writes_runs :
    route_writes copying number (pos 1029) ≡ location "order" "d" (pos 1) (pos 1) ∷ moved ∷ []
unfolding route_writes MappingRouter.write_locations MappingRouter.route_virtual_shard route_order
    GeneRouter.deciding_gene location_of_gene extract_user_gene user_gene and64 quotient remainder
    or_one wrap64 ◌*ℤ◌ ◌+ℤ◌ lookup location
route_writes_runs = refl

route_writes-route_example :
    let shard = (route_virtual_shard copying number (pos 1029)).0 in
    ((route_writes copying number (pos 1029) ≡ route copying number (pos 1029) ∷ [])
      × ((lookup shard copying.mappings ≡ none)
          ⊎ ((m : ShardMapping) × (lookup shard copying.mappings ≡ some m)
              × (is_dual m.write_mode ≡ false))))
    ⊎ ((m : ShardMapping) × (shadow : Location) × (lookup shard copying.mappings ≡ some m)
        × (is_dual m.write_mode ≡ true)
        × (m.shadow ≡ some shadow)
        × (route_writes copying number (pos 1029) ≡ route copying number (pos 1029) ∷ shadow ∷ []))
route_writes-route_example = route_writes-route copying number (pos 1029) copying-IsValid

route-primary_locations_example :
    (k : ℕ) × (get_elem? (MappingRouter.primary_locations copying) k
      ≡ some (route copying number (pos 1029)))
unfolding or_one
route-primary_locations_example = route-primary_locations copying number (pos 1029) (omega arith)
