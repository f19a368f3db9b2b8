-- ===== src/Sharding/GeneRouter/Catalog.antt =====
-- pkg/sharding/order_router.go: where an order is routed, and the place of that location in the
-- catalogue of all locations.
use ticket_hub.Common.{
  ℕ, zero, suc, ◌+◌, ◌*◌, ◌/◌, ◌%◌, ◌<◌, ℤ, pos, negsuc, ◌≡◌, refl, sym, ap, ◌∙◌, inl, inr, some,
  List, [], ◌∷◌, ◌++◌, arith, Bool-cases, nat_eq, string_eq, int_eq, length, get_elem?, pos_part,
  neg_part, ◌≤ℤ◌, ◌<ℤ◌, eqb_ℤ, eqb_ℤ_iff, quotient, remainder,
}
use ticket_hub.Idgen.OrderNumber.{user_gene, extract_user_gene}
use ticket_hub.Common.Bits.{and64}
use ticket_hub.Idgen.Numbers.{user_gene_small, extract_user_gene_small}
use ticket_hub.Sharding.Location.{Location, location, or_one, or_one_pos}
use ticket_hub.Sharding.GeneRouter.{
  GeneOrderRouter, deciding_gene, location_of_gene, route_order, tables_from, databases_from,
  primary_locations,
}

-- A gene is never negative.
deciding_gene_nonneg :
    (order_number user_id : ℤ) → neg_part (deciding_gene order_number user_id) ≡ 0
unfolding deciding_gene
deciding_gene_nonneg order_number user_id =
    let (g, is_gene, small) = extract_user_gene_small order_number in
    let (h, is_user_gene, user_small) = user_gene_small user_id in
    ground (arith, is_gene, is_user_gene)

-- The table and the database that a gene leads to.
location_of_gene_indices :
    (r : GeneOrderRouter) (gene : ℤ)
    → neg_part gene ≡ 0
    → (location_of_gene r gene
        ≡ location r.db_prefix r.table_prefix
            (pos ((pos_part gene / pos_part (or_one r.table_count)) % pos_part (or_one r.db_count)))
            (pos (pos_part gene % pos_part (or_one r.table_count))))
unfolding location_of_gene quotient remainder
location_of_gene_indices r (pos g) h = refl
location_of_gene_indices r (negsuc g) h = absurd (omega arith)

length-tables_from : (r : GeneOrderRouter) (db n tbl : ℕ) → length (tables_from r db n tbl) ≡ n
unfolding tables_from
length-tables_from r db zero tbl = refl
length-tables_from r db (suc n) tbl = ap suc (length-tables_from r db n (tbl + 1))

module _ {ℓ} {A : Type ℓ} where
  get_elem?-append_left :
      (xs ys : List A) (i : ℕ) → i < length xs → get_elem? (xs ++ ys) i ≡ get_elem? xs i
  get_elem?-append_left [] ys i h = elim h [ ]
  get_elem?-append_left (x ∷ xs) ys zero h = refl
  get_elem?-append_left (x ∷ xs) ys (suc i) h = get_elem?-append_left xs ys i (omega arith)

  get_elem?-append_right :
      (xs ys : List A) (i j : ℕ) → j ≡ length xs + i → get_elem? (xs ++ ys) j ≡ get_elem? ys i
  get_elem?-append_right [] ys i j h = let same : j ≡ i = omega arith in rw same
  get_elem?-append_right (x ∷ xs) ys i zero h = absurd (omega arith)
  get_elem?-append_right (x ∷ xs) ys i (suc j) h = get_elem?-append_right xs ys i j (omega arith)

get_elem?-tables_from :
    (r : GeneOrderRouter) (db n tbl i : ℕ)
    → i < n
    → get_elem? (tables_from r db n tbl) i
      ≡ some (location r.db_prefix r.table_prefix (pos db) (pos (tbl + i)))
unfolding tables_from
get_elem?-tables_from r db zero tbl i h = elim h [ ]
get_elem?-tables_from r db (suc n) tbl zero h =
    let at : tbl ≡ tbl + 0 = omega arith in
    ap (λ k. some (location r.db_prefix r.table_prefix (pos db) (pos k))) at
get_elem?-tables_from r db (suc n) tbl (suc i) h =
    let at : tbl + 1 + i ≡ tbl + suc i = omega arith in
    get_elem?-tables_from r db n (tbl + 1) i (omega arith)
    ∙ ap (λ k. some (location r.db_prefix r.table_prefix (pos db) (pos k))) at

-- The catalogue is in the order of databases, then tables.
get_elem?-databases_from :
    (r : GeneOrderRouter) (tables n db d t k : ℕ)
    → d < n
    → t < tables
    → k ≡ d * tables + t
    → get_elem? (databases_from r tables n db) k
      ≡ some (location r.db_prefix r.table_prefix (pos (db + d)) (pos t))
unfolding databases_from
get_elem?-databases_from r tables zero db d t k hd ht e = elim hd [ ]
get_elem?-databases_from r tables (suc n) db zero t k hd ht e =
    let first : k < length (tables_from r db tables 0) =
      omega (arith, length-tables_from r db tables 0) in
    let same : 0 + k ≡ t = omega arith in
    let here : db ≡ db + 0 = omega arith in
    get_elem?-append_left (tables_from r db tables 0) (databases_from r tables n (db + 1)) k first
    ∙ get_elem?-tables_from r db tables 0 k (omega arith)
    ∙ cc (same, here)
get_elem?-databases_from r tables (suc n) db (suc d) t k hd ht e =
    let after : k ≡ length (tables_from r db tables 0) + (d * tables + t) =
      grind (arith, length-tables_from r db tables 0) in
    let at : db + 1 + d ≡ db + suc d = omega arith in
    get_elem?-append_right (tables_from r db tables 0) (databases_from r tables n (db + 1))
      (d * tables + t) k after
    ∙ get_elem?-databases_from r tables n (db + 1) d t (d * tables + t) (omega arith) ht refl
    ∙ ap (λ j. some (location r.db_prefix r.table_prefix (pos j) (pos t))) at

-- The number of the virtual shard of an order: `DBIndex * tableCount + TblIndex`.
abbrev pub shard_of : GeneOrderRouter → Location → ℕ
shard_of r l = pos_part l.db_index * pos_part (or_one r.table_count) + pos_part l.tbl_index

gene_in_catalog :
    (r : GeneOrderRouter) (gene : ℤ)
    → neg_part gene ≡ 0
    → get_elem? (primary_locations r) (shard_of r (location_of_gene r gene))
      ≡ some (location_of_gene r gene)
unfolding primary_locations location
gene_in_catalog r gene h =
    let tables = pos_part (or_one r.table_count) in
    let dbs = pos_part (or_one r.db_count) in
    let here : 0 + pos_part gene / tables % dbs ≡ pos_part gene / tables % dbs = omega arith in
    rw (location_of_gene_indices r gene h) (
      get_elem?-databases_from r tables dbs 0 (pos_part gene / tables % dbs)
        (pos_part gene % tables) _ (omega (arith, or_one_pos r.db_count))
        (omega (arith, or_one_pos r.table_count)) refl
      ∙ cc here)

-- Every order is routed to a location of the catalogue, namely to the one at the number of its
-- virtual shard.
pub route_order-get_elem? :
    (r : GeneOrderRouter) (order_number user_id : ℤ)
    → get_elem? (primary_locations r) (shard_of r (route_order r order_number user_id))
      ≡ some (route_order r order_number user_id)
unfolding route_order
route_order-get_elem? r order_number user_id =
    gene_in_catalog r (deciding_gene order_number user_id)
      (deciding_gene_nonneg order_number user_id)

user_gene-zero : user_gene (pos 0) ≡ pos 0
unfolding user_gene and64
user_gene-zero = refl

-- For an order number that carries the gene of its owner, a lookup with the owner and a system
-- lookup, with the user 0, go to the location of that gene.
pub route_order_by_owner :
    (r : GeneOrderRouter) (order_number owner : ℤ)
    → extract_user_gene order_number ≡ user_gene owner
    → (route_order r order_number owner ≡ location_of_gene r (user_gene owner))
      × (route_order r order_number (pos 0) ≡ location_of_gene r (user_gene owner))
unfolding route_order deciding_gene
route_order_by_owner r order_number owner own =
    elim (Bool-cases (eqb_ℤ (extract_user_gene order_number) (pos 0))) [
      | inl none_set ↦
          let zero_gene : user_gene owner ≡ pos 0 =
            sym own ∙ (eqb_ℤ_iff (extract_user_gene order_number) (pos 0)).0 none_set in
          (rw none_set, rw (none_set, user_gene-zero, zero_gene))
      | inr set ↦ (rw (set, own), rw (set, own))
    ]

-- A location of a route has its indices within the counts of the router.
pub route_order_in_range :
    (r : GeneOrderRouter) (order_number user_id : ℤ)
    → let l = route_order r order_number user_id in
      (pos 0 ≤ℤ l.db_index)
      × (l.db_index <ℤ or_one r.db_count)
      × (pos 0 ≤ℤ l.tbl_index)
      × (l.tbl_index <ℤ or_one r.table_count)
unfolding route_order location
route_order_in_range r order_number user_id =
    let gene = deciding_gene order_number user_id in
    rw (location_of_gene_indices r gene (deciding_gene_nonneg order_number user_id))
      (omega (arith, or_one_pos r.db_count, or_one_pos r.table_count))
