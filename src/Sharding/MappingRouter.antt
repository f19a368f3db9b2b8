-- ===== src/Sharding/MappingRouter.antt =====
-- pkg/sharding/mapping_router.go. The locks are left out: each method reads or writes the table of
-- mappings in one critical section.
pub mod Routes
use ticket_hub.Common.{
  ℕ, zero, suc, ◌+◌, ◌*◌, ℤ, pos, String, Bool, true, false, ◌&&◌, ◌||◌, not, Option, none, some,
  List, [], ◌∷◌, ltb_ℤ, leb_ℤ, ◌==◌, string_eq, int_eq, if◌then◌else◌, mul64, add64, ◌-ℤ◌, pos_part,
}
use ticket_hub.Common.Dict.{Dict, lookup, insert}
use ticket_hub.Errors.{GoError, errorf, num, str, Result, ok, err, ◌>>=◌}
use ticket_hub.Sharding.Location.{Location, or_one}
use ticket_hub.Sharding.GeneRouter.{GeneOrderRouter, route_order}
use ticket_hub.Sharding.GeneRouter

-- The constants of the string type `WriteMode`; a row may hold the empty text or another one.
pub data WriteMode : Type 0 where
  unset primary_only dual_write : WriteMode
  other_mode : String → WriteMode

pub record ShardMapping : Type 0 where
  pub virtual_shard : ℤ
  pub primary : Location
  pub shadow : Option Location
  pub write_mode : WriteMode
  pub version : ℤ

-- `refreshed_at` is `none` until the first refresh (Go's zero time).
pub record MappingOrderRouter : Type 0 where
  pub fallback : GeneOrderRouter
  pub mappings : Dict ℤ ShardMapping
  pub refreshed_at : Option ℤ

-- `NewMappingOrderRouter`
unfoldable pub new_mapping_order_router : GeneOrderRouter → MappingOrderRouter
new_mapping_order_router fallback = record {
  fallback = fallback;
  mappings = [];
  refreshed_at = none;
}

unfoldable pub virtual_shard_count : GeneOrderRouter → ℤ
virtual_shard_count r = mul64 (or_one r.db_count) (or_one r.table_count)

-- `if mapping.WriteMode == "" { mapping.WriteMode = WritePrimaryOnly }`
unfoldable pub default_mode : WriteMode → WriteMode
default_mode unset = primary_only
default_mode m = m

abbrev pub mode_text : WriteMode → String
mode_text unset = ""
mode_text primary_only = "PRIMARY_ONLY"
mode_text dual_write = "DUAL_WRITE"
mode_text (other_mode s) = s

abbrev pub is_supported : WriteMode → Bool
is_supported primary_only = true
is_supported dual_write = true
is_supported m = false

abbrev pub is_dual : WriteMode → Bool
is_dual dual_write = true
is_dual m = false

abbrev pub is_none : {A : Type 0} → Option A → Bool
is_none none = true
is_none (some a) = false

-- The body of the loop of `ReplaceMappings`: the checks on one row, and the row as it is stored.
unfoldable pub check_mapping : ℤ → ShardMapping → Result ShardMapping
unfolding default_mode
check_mapping maximum m =
    let mode = default_mode m.write_mode in
    if ltb_ℤ m.virtual_shard (pos 0) || leb_ℤ maximum m.virtual_shard
    then err (errorf "virtual shard %d is outside [0,%d)" (num m.virtual_shard ∷ num maximum ∷ []))
    else if m.primary.database == "" || m.primary.table == ""
    then err (errorf "virtual shard %d primary location is required" (num m.virtual_shard ∷ []))
    else if not (is_supported mode)
    then err (
        errorf "virtual shard %d has unsupported write mode %s"
          (num m.virtual_shard ∷ str (mode_text mode) ∷ []))
    else if is_dual mode && is_none m.shadow
    then err (
        errorf "virtual shard %d shadow location is required for dual write"
          (num m.virtual_shard ∷ []))
    else ok (record m { write_mode = mode })

-- The loop: the new table, or the first error.
unfoldable pub build_mappings :
    ℤ → List ShardMapping → Dict ℤ ShardMapping → Result (Dict ℤ ShardMapping)
build_mappings maximum [] next = ok next
build_mappings maximum (m ∷ ms) next = elim (check_mapping maximum m) [
  | err e ↦ err e
  | ok stored ↦ build_mappings maximum ms (insert stored.virtual_shard stored next)
]

-- `ReplaceMappings` at the time `now`.
unfoldable pub replace_mappings :
    ℤ → List ShardMapping → MappingOrderRouter → Option GoError × MappingOrderRouter
replace_mappings now ms r = elim (build_mappings (virtual_shard_count r.fallback) ms []) [
  | err e ↦ (some e, r)
  | ok next ↦ (none, record r { mappings = next; refreshed_at = some now })
]

-- `MappingFresh` at the time `now`.
unfoldable pub mapping_fresh : ℤ → ℤ → MappingOrderRouter → Bool
mapping_fresh now max_age r =
    if leb_ℤ max_age (pos 0)
    then false
    else elim r.refreshed_at [ none ↦ false | some at ↦ leb_ℤ (now -ℤ at) max_age ]

-- `routeVirtualShard`: the number of the virtual shard, and the location without mappings.
unfoldable pub route_virtual_shard : MappingOrderRouter → ℤ → ℤ → ℤ × Location
route_virtual_shard r order_number user_id =
    let fallback = GeneRouter.route_order r.fallback order_number user_id in
    (add64 (mul64 fallback.db_index (or_one r.fallback.table_count)) fallback.tbl_index, fallback)

-- `RouteOrder`
unfoldable pub route : MappingOrderRouter → ℤ → ℤ → Location
unfolding route_virtual_shard
route r order_number user_id =
    let (shard, fallback) = route_virtual_shard r order_number user_id in
    elim (lookup shard r.mappings) [ some m ↦ m.primary | none ↦ fallback ]

-- The locations that a mapping has writes go to.
unfoldable pub write_locations : ShardMapping → List Location
write_locations m =
    if is_dual m.write_mode
    then elim m.shadow [ some shadow ↦ m.primary ∷ shadow ∷ [] | none ↦ m.primary ∷ [] ]
    else m.primary ∷ []

-- `RouteOrderWrites`
unfoldable pub route_writes : MappingOrderRouter → ℤ → ℤ → List Location
unfolding route_virtual_shard
route_writes r order_number user_id =
    let (shard, fallback) = route_virtual_shard r order_number user_id in
    elim (lookup shard r.mappings) [ some m ↦ write_locations m | none ↦ fallback ∷ [] ]

-- The loop of `PrimaryLocations`, from the virtual shard `shard` on.
unfoldable pub current_locations : Dict ℤ ShardMapping → ℕ → List Location → List Location
current_locations ms shard [] = []
current_locations ms shard (l ∷ ls) =
    elim (lookup (pos shard) ms) [ some m ↦ m.primary | none ↦ l ]
    ∷ current_locations ms (shard + 1) ls

-- `PrimaryLocations`
unfoldable pub primary_locations : MappingOrderRouter → List Location
unfolding current_locations
primary_locations r = current_locations r.mappings 0 (GeneRouter.primary_locations r.fallback)

-- The loop of `Snapshot`: `n` virtual shards from `shard` on.
unfoldable pub snapshot_from : Dict ℤ ShardMapping → ℕ → ℕ → List ShardMapping
snapshot_from ms zero shard = []
snapshot_from ms (suc n) shard =
    let rest = snapshot_from ms n (shard + 1) in
    elim (lookup (pos shard) ms) [ some m ↦ m ∷ rest | none ↦ rest ]

-- `Snapshot`
unfoldable pub snapshot : MappingOrderRouter → List ShardMapping
unfolding snapshot_from
snapshot r = snapshot_from r.mappings (pos_part (virtual_shard_count r.fallback)) 0
