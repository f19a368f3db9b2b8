-- ===== src/Migration/Exclusive.antt =====
-- app/migrate-service/internal/infrastructure/memory/migration_repository.go: no two shards come to
-- one location.
use ticket_hub.Common.{
  ℤ, String, ◌≡◌, refl, sym, ap, subst, ◌∙◌, ◌⊎◌, inl, inr, Bool, true, false, ◌&&◌, ◌||◌, some,
  List, [], ◌∷◌, arith, Bool-cases, Option-cases, ◌==◌, nat_eq, string_eq, int_eq, Mem, eqb_ℤ_iff,
}
use ticket_hub.Sharding.MappingRouter.{is_dual}
use ticket_hub.Migration.{MigrationTask, ShardMapping}
use ticket_hub.Migration.Memory.{
  Migrations, location_of, is_assigned, is_source, with_shadow, change_first, is_moving, moved,
  save_task, load_next_task, complete_task, fail_task, resume_task, next_open,
}
use ticket_hub.Migration.Moves.{Call, saving, loading, completing, failing, resuming, call, run}
use ticket_hub.Common.Dict.{lookup}

-- The shard is stored at the location, or written to it as well.
unfoldable pub is_at : String × String → ShardMapping → Bool
is_at (database, table) m =
    (m.physical_db == database && m.physical_table == table)
    || (is_dual m.write_mode && m.shadow_db == database && m.shadow_table == table)

-- Mappings at one location are of one virtual shard.
abbrev pub IsExclusive : List ShardMapping → Type 0
IsExclusive ms =
    (l : String × String) (x y : ShardMapping)
    → Mem x ms
    → Mem y ms
    → is_at l x ≡ true
    → is_at l y ≡ true
    → x.virtual_shard ≡ y.virtual_shard

change_first-Mem :
    {A : Type 0} (test : A → Bool) (change : A → A) (xs ys : List A) (y : A)
    → change_first test change xs ≡ some ys
    → Mem y ys
    → Mem y xs ⊎ ((x : A) × Mem x xs × (test x ≡ true) × (y ≡ change x))
unfolding change_first
change_first-Mem test change [] ys y h m = absurd (ground (arith, h))
change_first-Mem {A} test change (x ∷ xs) ys y h m = elim (Bool-cases (test x)) [
  | inl hit ↦
      let here : ys ≡ change x ∷ xs = ground (arith, hit, h) in
      let m' : (change x ≡ y) ⊎ Mem y xs = subst (λ (zs : List A). Mem y zs) here m in
      elim m' [ inl e ↦ inr (x, inl refl, hit, sym e) | inr later ↦ inl (inr later) ]
  | inr miss ↦ elim (Option-cases (change_first test change xs)) [
    | inl stuck ↦ absurd (ground (arith, miss, stuck, h))
    | inr (zs, found) ↦
        let there : ys ≡ x ∷ zs = ground (arith, miss, found, h) in
        let m' : (x ≡ y) ⊎ Mem y zs = subst (λ (t : List A). Mem y t) there m in
        elim m' [
          | inl e ↦ inl (inl e)
          | inr later ↦ elim (change_first-Mem test change xs zs y found later) [
            | inl old ↦ inl (inr old)
            | inr (w, mw, hit, e) ↦ inr (w, inr mw, hit, e)
          ]
        ]
  ]
]

or_false : (a b : Bool) → (a || b) ≡ false → b ≡ false
or_false a b h = ground (arith, h)

module _ (shard : ℤ) (database table : String) (x : ShardMapping) (xs : List ShardMapping) where
  elsewhere_only :
      is_at (database, table) x ≡ true
      → (x.virtual_shard == shard) ≡ false
      → is_assigned shard (database, table) (x ∷ xs) ≡ false
      → ⊥
  unfolding is_assigned is_at
  elsewhere_only at other free =
      elim (Bool-cases (x.physical_db == database && x.physical_table == table)) [
        | inl here ↦ ground (arith, other, free, here)
        | inr far ↦
            let shadow : (x.shadow_db == database && x.shadow_table == table) ≡ true =
              ground (arith, at, far) in
            ground (arith, other, free, shadow)
      ]

-- Where another shard is not at the target, a mapping there is of this one.
is_assigned-false :
    (shard : ℤ) (l : String × String) (ms : List ShardMapping) (m : ShardMapping)
    → is_assigned shard l ms ≡ false
    → Mem m ms
    → is_at l m ≡ true
    → m.virtual_shard ≡ shard
unfolding is_assigned is_at
is_assigned-false shard (database, table) (x ∷ xs) m free (inl e) at =
    elim (Bool-cases (x.virtual_shard == shard)) [
      | inl same ↦
          ap (λ (t : ShardMapping). t.virtual_shard) (sym e)
          ∙ (eqb_ℤ_iff x.virtual_shard shard).0 same
      | inr other ↦ absurd (
          elsewhere_only shard database table x xs
            (subst (λ (t : ShardMapping). is_at (database, table) t ≡ true) (sym e) at) other free)
    ]
is_assigned-false shard (database, table) (x ∷ xs) m free (inr later) at =
    is_assigned-false shard (database, table) xs m (or_false _ _ free) later at
is_assigned-false shard l [] m free mem at = elim mem [ ]

-- Where a mapping of the new list is, one of its shard was in the old list, or it is the target of
-- the shard that is moved.
abbrev Origin : ℤ → String × String → List ShardMapping → ShardMapping → Type 0
Origin shard to ms x =
    (l : String × String)
    → is_at l x ≡ true
    → ((m : ShardMapping) × Mem m ms × (m.virtual_shard ≡ x.virtual_shard) × (is_at l m ≡ true))
      ⊎ ((x.virtual_shard ≡ shard) × (l ≡ to))

origins-IsExclusive :
    (shard : ℤ) (to : String × String) (ms ms' : List ShardMapping)
    → IsExclusive ms
    → ((m : ShardMapping) → Mem m ms → is_at to m ≡ true → m.virtual_shard ≡ shard)
    → ((x : ShardMapping) → Mem x ms' → Origin shard to ms x)
    → IsExclusive ms'
origins-IsExclusive shard to ms ms' old free origin l x y mx my ax ay = elim (origin x mx l ax) [
  | inl (m, mm, em, am) ↦ elim (origin y my l ay) [
    | inl (n, mn, en, an) ↦ sym em ∙ old l m n mm mn am an ∙ en
    | inr (sy, ly) ↦
        sym em ∙ free m mm (subst (λ (t : String × String). is_at t m ≡ true) ly am) ∙ sym sy
  ]
  | inr (sx, lx) ↦ elim (origin y my l ay) [
    | inl (n, mn, en, an) ↦
        sx ∙ sym (free n mn (subst (λ (t : String × String). is_at t n ≡ true) lx an)) ∙ en
    | inr (sy, ly) ↦ sx ∙ sym sy
  ]
]

same_location :
    (d t database table : String)
    → (database == d && table == t) ≡ true
    → ◌≡◌ {A = String × String} (d, t) (database, table)
same_location d t database table h =
    let first : database ≡ d = (string_eq.beq_iff database d).0 (ground (arith, h)) in
    let second : table ≡ t = (string_eq.beq_iff table t).0 (ground (arith, h)) in cc (first, second)

with_shadow-Origin :
    (shard : ℤ) (source to : String × String) (ms : List ShardMapping) (m : ShardMapping)
    → Mem m ms
    → is_source shard source m ≡ true
    → Origin shard to ms (with_shadow to m)
unfolding with_shadow is_at
with_shadow-Origin shard source (database, table) ms m mem hit (d, t) at =
    elim (Bool-cases (m.physical_db == d && m.physical_table == t)) [
      | inl here ↦ inl (m, mem, refl, ground (arith, here))
      | inr elsewhere ↦ inr (
        ground (arith, hit, eqb_ℤ_iff m.virtual_shard shard),
        same_location d t database table (ground (arith, elsewhere, at)),
      )
    ]

-- A shard that was moved is where it was written to before.
moved_was :
    (shard : ℤ) (m : ShardMapping)
    → is_moving shard m ≡ true
    → (l : String × String) → is_at l (moved m) ≡ true
    → is_at l m ≡ true
unfolding moved is_at
moved_was shard m hit (d, t) at = ground (arith, hit, at)

old-Origin :
    (shard : ℤ) (to : String × String) (ms : List ShardMapping) (x : ShardMapping)
    → Mem x ms
    → Origin shard to ms x
old-Origin shard to ms x mem l at = inl (x, mem, refl, at)

save_task-IsExclusive :
    (now : ℤ) (task : MigrationTask) (r : Migrations)
    → IsExclusive r.mappings
    → IsExclusive (save_task now task r).1.mappings
unfolding save_task
save_task-IsExclusive now task r old =
    let source = location_of task.source_shard in
    let target = location_of task.target_shard in
    let shard = task.virtual_shard in
    elim (Bool-cases (is_assigned shard target r.mappings)) [
      | inl taken ↦ subst IsExclusive (ground (arith, taken)) old
      | inr free ↦
          elim (Option-cases
            (change_first (is_source shard source) (with_shadow target) r.mappings)) [
              | inl missing ↦ subst IsExclusive (ground (arith, free, missing)) old
              | inr (ms, found) ↦ subst IsExclusive (ground (arith, free, found)) (
                  origins-IsExclusive shard target r.mappings ms old
                    (λ m mem at. is_assigned-false shard target r.mappings m free mem at)
                    (λ x mem.
                      elim (change_first-Mem (is_source shard source) (with_shadow target)
                        r.mappings ms x found mem) [
                          | inl before ↦ old-Origin shard target r.mappings x before
                          | inr (m, mm, hit, e) ↦
                              subst (Origin shard target r.mappings) (sym e)
                                (with_shadow-Origin shard source target r.mappings m mm hit)
                        ]))
            ]
    ]

complete_task-IsExclusive :
    (task : MigrationTask) (r : Migrations)
    → IsExclusive r.mappings
    → IsExclusive (complete_task task r).1.mappings
unfolding complete_task
complete_task-IsExclusive task r old =
    let shard = task.virtual_shard in
    elim (Option-cases (change_first (is_moving shard) moved r.mappings)) [
      | inl missing ↦ subst IsExclusive (ground (arith, missing)) old
      | inr (ms, found) ↦ subst IsExclusive (ground (arith, found)) (λ l x y mx my ax ay.
          let (m, mm, em, am) = before shard r.mappings ms x found mx l ax in
          let (n, mn, en, an) = before shard r.mappings ms y found my l ay in
          sym em ∙ old l m n mm mn am an ∙ en)
    ]
  where
    before :
        (shard : ℤ) (ms ms' : List ShardMapping) (x : ShardMapping)
        → change_first (is_moving shard) moved ms ≡ some ms'
        → Mem x ms'
        → (l : String × String) → is_at l x ≡ true
        → (m : ShardMapping) × Mem m ms × (m.virtual_shard ≡ x.virtual_shard) × (is_at l m ≡ true)
    before shard ms ms' x found mem l at =
        elim (change_first-Mem (is_moving shard) moved ms ms' x found mem) [
          | inl old ↦ (x, old, refl, at)
          | inr (m, mm, hit, e) ↦
              let was =
                moved_was shard m hit l (subst (λ (t : ShardMapping). is_at l t ≡ true) e at) in
              (m, mm, ap (λ (t : ShardMapping). t.virtual_shard) (sym e), was)
        ]

call-IsExclusive :
    (c : Call) (r : Migrations) → IsExclusive r.mappings → IsExclusive (call c r).mappings
unfolding call load_next_task fail_task resume_task
call-IsExclusive (saving now task) r old = save_task-IsExclusive now task r old
call-IsExclusive (completing task) r old = complete_task-IsExclusive task r old
call-IsExclusive loading r old = elim (Option-cases (next_open r.tasks)) [
  | inl nothing ↦ subst IsExclusive (ground (arith, nothing)) old
  | inr (id, found) ↦ elim (Option-cases (lookup id r.tasks)) [
    | inl missing ↦ subst IsExclusive (ground (arith, found, missing)) old
    | inr (task, stored) ↦ subst IsExclusive (ground (arith, found, stored)) old
  ]
]
call-IsExclusive (failing id reason) r old = elim (Option-cases (lookup id r.tasks)) [
  | inl missing ↦ subst IsExclusive (ground (arith, missing)) old
  | inr (task, stored) ↦ subst IsExclusive (ground (arith, stored)) old
]
call-IsExclusive (resuming id) r old = elim (Option-cases (lookup id r.tasks)) [
  | inl missing ↦ subst IsExclusive (ground (arith, missing)) old
  | inr (task, stored) ↦ subst IsExclusive (ground (arith, stored)) old
]

-- Whatever is called, two mappings that are stored at one location, or written to it, are of one
-- virtual shard, if they are so at the start.
pub run-IsExclusive :
    (cs : List Call) (r : Migrations) → IsExclusive r.mappings → IsExclusive (run cs r).mappings
unfolding run
run-IsExclusive [] r old = old
run-IsExclusive (c ∷ cs) r old = run-IsExclusive cs (call c r) (call-IsExclusive c r old)
