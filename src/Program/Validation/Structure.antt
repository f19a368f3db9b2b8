-- ===== src/Program/Validation/Structure.antt =====
-- app/program-service/internal/application/purchase_validation.go: what a purchase has to look like.
use ticket_hub.Common.{
  ℤ, pos, ◌≡◌, ◌≢◌, refl, sym, ◌↔◌, true, false, ◌||◌, List, [], ◌∷◌, arith, Bool-cases, ◌==◌,
  nat_eq, string_eq, int_eq, ==_ne, length, All, ◌≤ℤ◌, ◌<ℤ◌, ltb_ℤ, leb_ℤ, eqb_ℤ, eqb_ℤ_iff,
}
use ticket_hub.Errors.{ok}
use ticket_hub.Program.{CreateOrderCommand, ticket_count, contains}
use ticket_hub.Program.Validation.{duplicate_from, duplicate_int64, validate_structure}

abbrev pub Distinct : List ℤ → Type 0
Distinct [] = Unit
Distinct (v ∷ vs) = All (λ x. v ≢ x) vs × Distinct vs

-- Numbers that are positive and not in `seen`.
abbrev Fresh : List ℤ → ℤ → Type 0
Fresh seen v = (pos 0 <ℤ v) × (contains v seen ≡ false)

Fresh-tail :
    (v : ℤ) (seen vs : List ℤ)
    → All (Fresh (v ∷ seen)) vs
    → All (Fresh seen) vs × All (λ x. v ≢ x) vs
Fresh-tail v seen [] h = (tt, tt)
Fresh-tail v seen (x ∷ vs) (h, t) =
    let rest = Fresh-tail v seen vs t in
    (
      ((h.0, ground (arith, h.1, Bool-cases (v == x))), rest.0),
      (λ e. ground (arith, h.1, (int_eq.beq_iff v x).1 e), rest.1),
    )

Fresh-cons :
    (v : ℤ) (seen vs : List ℤ)
    → All (Fresh seen) vs
    → All (λ x. v ≢ x) vs
    → All (Fresh (v ∷ seen)) vs
Fresh-cons v seen [] h d = tt
Fresh-cons v seen (x ∷ vs) (h, t) (d, ds) =
    ((h.0, ground (arith, h.1, ==_ne v x d)), Fresh-cons v seen vs t ds)

duplicate_from_sound :
    (vs seen : List ℤ) → duplicate_from vs seen ≡ false → All (Fresh seen) vs × Distinct vs
unfolding duplicate_from
duplicate_from_sound [] seen e = (tt, tt)
duplicate_from_sound (v ∷ vs) seen e =
    let positive : leb_ℤ v (pos 0) ≡ false = ground (arith, Bool-cases (leb_ℤ v (pos 0))) in
    let unseen : contains v seen ≡ false = ground (arith, Bool-cases (contains v seen), positive) in
    let (fresh, distinct) = duplicate_from_sound vs (v ∷ seen) (ground (arith, positive, unseen)) in
    let (kept, apart) = Fresh-tail v seen vs fresh in
    (((ground (arith, positive), unseen), kept), (apart, distinct))

duplicate_from_complete :
    (vs seen : List ℤ) → All (Fresh seen) vs → Distinct vs → duplicate_from vs seen ≡ false
unfolding duplicate_from
duplicate_from_complete [] seen h d = refl
duplicate_from_complete (v ∷ vs) seen (h, t) (apart, distinct) =
    let rest = duplicate_from_complete vs (v ∷ seen) (Fresh-cons v seen vs t apart) distinct in
    ground (arith, h.0, h.1, rest)

All-Fresh : (vs : List ℤ) → All (λ v. pos 0 <ℤ v) vs → All (Fresh []) vs
All-Fresh [] h = tt
All-Fresh (v ∷ vs) (h, t) = ((h, refl), All-Fresh vs t)

All-positive : (vs : List ℤ) → All (Fresh []) vs → All (λ v. pos 0 <ℤ v) vs
All-positive [] h = tt
All-positive (v ∷ vs) (h, t) = (h.0, All-positive vs t)

-- The test for duplicates passes exactly where the numbers are positive and all different.
duplicate_int64_iff :
    (vs : List ℤ) → (duplicate_int64 vs ≡ false) ↔ (All (λ v. pos 0 <ℤ v) vs × Distinct vs)
unfolding duplicate_int64
duplicate_int64_iff vs = (
  λ e. let (fresh, distinct) = duplicate_from_sound vs [] e in (All-positive vs fresh, distinct),
  λ h. duplicate_from_complete vs [] (All-Fresh vs h.0) h.1,
)

-- A well-formed purchase: from 1 to `max_tickets` tickets, each for a user of its own and, where
-- seats are chosen, on a seat of its own.
pub record IsWellFormed (max_tickets : ℤ) (cmd : CreateOrderCommand) : Type 0 where
  pub user_positive : pos 0 <ℤ cmd.user_id
  pub program_positive : pos 0 <ℤ cmd.program_id
  pub category_positive : pos 0 <ℤ cmd.ticket_category_id
  pub some_tickets : pos 0 <ℤ ticket_count cmd
  pub within_limit : ticket_count cmd ≤ℤ max_tickets
  pub user_each : ticket_count cmd ≡ pos (length cmd.ticket_user_ids)
  pub users_positive : All (λ v. pos 0 <ℤ v) cmd.ticket_user_ids
  pub users_distinct : Distinct cmd.ticket_user_ids
  pub seats_positive : All (λ v. pos 0 <ℤ v) cmd.seat_ids
  pub seats_distinct : Distinct cmd.seat_ids

-- What the guards of the rule come to where all of them are passed.
guards_passed :
    (max_tickets : ℤ) (cmd : CreateOrderCommand)
    → validate_structure max_tickets cmd ≡ ok tt
    → (leb_ℤ cmd.user_id (pos 0)
          || (leb_ℤ cmd.program_id (pos 0) || leb_ℤ cmd.ticket_category_id (pos 0))
        ≡ false)
      × (leb_ℤ (ticket_count cmd) (pos 0) ≡ false)
      × (ltb_ℤ max_tickets (ticket_count cmd) ≡ false)
      × (eqb_ℤ (pos (length cmd.ticket_user_ids)) (ticket_count cmd) ≡ true)
      × (duplicate_int64 cmd.ticket_user_ids ≡ false)
      × (duplicate_int64 cmd.seat_ids ≡ false)
unfolding validate_structure
guards_passed max_tickets cmd e =
    let ids : leb_ℤ cmd.user_id (pos 0)
          || (leb_ℤ cmd.program_id (pos 0) || leb_ℤ cmd.ticket_category_id (pos 0))
        ≡ false =
      ground arith in
    let some_tickets : leb_ℤ (ticket_count cmd) (pos 0) ≡ false = ground arith in
    let limit : ltb_ℤ max_tickets (ticket_count cmd) ≡ false = ground arith in
    let each : eqb_ℤ (pos (length cmd.ticket_user_ids)) (ticket_count cmd) ≡ true = ground arith in
    let users : duplicate_int64 cmd.ticket_user_ids ≡ false = ground arith in
    let seats : duplicate_int64 cmd.seat_ids ≡ false = ground arith in
    (ids, some_tickets, limit, each, users, seats)

-- The structure rule accepts exactly the well-formed purchases.
pub validate_structure_iff :
    (max_tickets : ℤ) (cmd : CreateOrderCommand)
    → (validate_structure max_tickets cmd ≡ ok tt) ↔ IsWellFormed max_tickets cmd
unfolding validate_structure
validate_structure_iff max_tickets cmd = (
  λ e.
      let (ids, some_tickets, limit, each, users, seats) = guards_passed max_tickets cmd e in
      let user_list = (duplicate_int64_iff cmd.ticket_user_ids).0 users in
      let seat_list = (duplicate_int64_iff cmd.seat_ids).0 seats in
      record {
        user_positive = ground (arith, ids);
        program_positive = ground (arith, ids);
        category_positive = ground (arith, ids);
        some_tickets = ground (arith, some_tickets);
        within_limit = ground (arith, limit);
        user_each = sym ((eqb_ℤ_iff _ _).0 each);
        users_positive = user_list.0;
        users_distinct = user_list.1;
        seats_positive = seat_list.0;
        seats_distinct = seat_list.1;
      },
  λ h.
      let users =
        (duplicate_int64_iff cmd.ticket_user_ids).1 (h.users_positive, h.users_distinct) in
      let seats = (duplicate_int64_iff cmd.seat_ids).1 (h.seats_positive, h.seats_distinct) in
      let ids : leb_ℤ cmd.user_id (pos 0)
            || (leb_ℤ cmd.program_id (pos 0) || leb_ℤ cmd.ticket_category_id (pos 0))
          ≡ false =
        ground (arith, h.user_positive, h.program_positive, h.category_positive) in
      let each =
        (eqb_ℤ_iff (pos (length cmd.ticket_user_ids)) (ticket_count cmd)).1 (sym h.user_each) in
      let some_tickets : leb_ℤ (ticket_count cmd) (pos 0) ≡ false =
        ground (arith, h.some_tickets) in
      let limit : ltb_ℤ max_tickets (ticket_count cmd) ≡ false = ground (arith, h.within_limit) in
      rw (ids, some_tickets, limit, each, users, seats),
)
