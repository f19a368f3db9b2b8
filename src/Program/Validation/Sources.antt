-- ===== src/Program/Validation/Sources.antt =====
-- app/program-service/internal/application/purchase_validation.go: what a purchase that passes the
-- rules has to do with the catalogue and with the ticket users of its buyer.
use ticket_hub.Common.{
  ℤ, String, ◌≡◌, refl, ◌↔◌, ◌⊎◌, inl, inr, Bool, true, ◌&&◌, Option, none, some, List, [], ◌∷◌,
  arith, nat_eqb, Bool-cases, ◌==◌, nat_eq, string_eq, int_eq, length, All, Mem,
}
use ticket_hub.Errors.{GoError, Result, ok, Result-cases}
use ticket_hub.Program.{TicketCategory, no_sold, Seat, CreateOrderCommand, contains}
use ticket_hub.Program.Validation.{
  seat_refused, user_refused, Program, PurchaseCatalog, check_category, available_ids, is_no_sold,
  all_inside, check_seats, validate_catalog, validate_ownership, validate_all,
}

contains-Mem : (id : ℤ) (ids : List ℤ) → contains id ids ≡ true → Mem id ids
contains-Mem id [] h = absurd (ground arith)
contains-Mem id (j ∷ ids) h = elim (Bool-cases (j == id)) [
  | inl hit ↦ inl ((int_eq.beq_iff j id).0 hit)
  | inr miss ↦ inr (contains-Mem id ids (ground (arith, miss)))
]

all_inside-All :
    (e : GoError) (inside ids : List ℤ)
    → all_inside e inside ids ≡ ok tt
    → All (λ id. contains id inside ≡ true) ids
unfolding all_inside
all_inside-All e inside [] h = tt
all_inside-All e inside (id ∷ ids) h = elim (Bool-cases (contains id inside)) [
  | inl hit ↦ (hit, all_inside-All e inside ids (ground (arith, hit)))
  | inr miss ↦ absurd (ground (arith, miss))
]

All-map : {P Q : ℤ → Type 0} → ((id : ℤ) → P id → Q id) → (ids : List ℤ) → All P ids → All Q ids
All-map f [] h = tt
All-map f (id ∷ ids) h = (f id h.0, All-map f ids h.1)

-- The category of a purchase, on sale.
pub record IsOnSale (cmd : CreateOrderCommand) (categories : List TicketCategory) : Type 0 where
  pub category : TicketCategory
  pub listed : Mem category categories
  pub id_lem : category.id ≡ cmd.ticket_category_id
  pub program_lem : category.program_id ≡ cmd.program_id
  pub started : category.sell_started ≡ true

check_category-IsOnSale :
    (cmd : CreateOrderCommand) (cs : List TicketCategory)
    → check_category cmd cs ≡ ok tt
    → IsOnSale cmd cs
unfolding check_category
check_category-IsOnSale cmd [] h = absurd (ground arith)
check_category-IsOnSale cmd (c ∷ cs) h =
    elim (Bool-cases (c.id == cmd.ticket_category_id && c.program_id == cmd.program_id)) [
      | inl hit ↦ record {
        category = c;
        listed = inl refl;
        id_lem = (int_eq.beq_iff c.id cmd.ticket_category_id).0 (ground (arith, hit));
        program_lem =
            (int_eq.beq_iff c.program_id cmd.program_id).0
              (ground (arith, hit, Bool-cases (c.id == cmd.ticket_category_id)));
        started = ground (arith, hit, Bool-cases c.sell_started);
      }
      | inr miss ↦
          let rest : IsOnSale cmd cs = check_category-IsOnSale cmd cs (ground (arith, miss)) in
          record {
            category = rest.category;
            listed = inr rest.listed;
            id_lem = rest.id_lem;
            program_lem = rest.program_lem;
            started = rest.started;
          }
    ]

-- A seat of the program and the category of a purchase that is not sold.
pub record IsAvailable (cmd : CreateOrderCommand) (seats : List Seat) (id : ℤ) : Type 0 where
  pub seat : Seat
  pub listed : Mem seat seats
  pub id_lem : seat.id ≡ id
  pub program_lem : seat.program_id ≡ cmd.program_id
  pub category_lem : seat.ticket_category_id ≡ cmd.ticket_category_id
  pub free : seat.status ≡ no_sold

is_no_sold_sound : (s : Seat) → is_no_sold s.status ≡ true → s.status ≡ no_sold
is_no_sold_sound s h = ground arith

IsAvailable-later :
    (cmd : CreateOrderCommand) (s : Seat) (ss : List Seat) (id : ℤ)
    → IsAvailable cmd ss id
    → IsAvailable cmd (s ∷ ss) id
IsAvailable-later cmd s ss id a = record {
  seat = a.seat;
  listed = inr a.listed;
  id_lem = a.id_lem;
  program_lem = a.program_lem;
  category_lem = a.category_lem;
  free = a.free;
}

available_ids-IsAvailable :
    (cmd : CreateOrderCommand) (ss : List Seat) (id : ℤ)
    → contains id (available_ids cmd ss) ≡ true
    → IsAvailable cmd ss id
unfolding available_ids
available_ids-IsAvailable cmd [] id h = absurd (ground arith)
available_ids-IsAvailable cmd (s ∷ ss) id h =
    let program = Bool-cases (s.program_id == cmd.program_id) in
    let category = Bool-cases (s.ticket_category_id == cmd.ticket_category_id) in
    elim (Bool-cases (
      s.program_id == cmd.program_id
      && (s.ticket_category_id == cmd.ticket_category_id && is_no_sold s.status))) [
        | inr unfit ↦
            IsAvailable-later cmd s ss id
              (available_ids-IsAvailable cmd ss id (ground (arith, unfit)))
        | inl fit ↦ elim (Bool-cases (s.id == id)) [
          | inr other ↦
              IsAvailable-later cmd s ss id
                (available_ids-IsAvailable cmd ss id (ground (arith, fit, other)))
          | inl hit ↦ record {
            seat = s;
            listed = inl refl;
            id_lem = (int_eq.beq_iff s.id id).0 hit;
            program_lem =
                (int_eq.beq_iff s.program_id cmd.program_id).0 (ground (arith, fit, program));
            category_lem =
                (int_eq.beq_iff s.ticket_category_id cmd.ticket_category_id).0
                  (ground (arith, fit, program, category));
            free = is_no_sold_sound s (ground (arith, fit, program, category));
          }
        ]
      ]

check_seats_sound :
    (catalog : PurchaseCatalog) (cmd : CreateOrderCommand)
    → check_seats catalog cmd ≡ ok tt
    → (cmd.seat_ids ≡ [])
      ⊎ ((seats : List Seat) × (catalog.list_seats cmd.program_id cmd.ticket_category_id ≡ ok seats)
          × All (IsAvailable cmd seats) cmd.seat_ids)
unfolding check_seats
check_seats_sound catalog cmd h = elim (Bool-cases (nat_eqb (length cmd.seat_ids) 0)) [
  | inl empty ↦ inl (no_seats cmd.seat_ids (ground (arith, empty)))
  | inr chosen ↦ elim (Result-cases (catalog.list_seats cmd.program_id cmd.ticket_category_id)) [
    | inl (e, failed) ↦ absurd (ground (arith, chosen, failed))
    | inr (seats, listed) ↦ inr (
      seats,
      listed,
      All-map (available_ids-IsAvailable cmd seats) cmd.seat_ids (
          all_inside-All seat_refused (available_ids cmd seats) cmd.seat_ids
            (ground (arith, chosen, listed))),
    )
  ]
]
  where
    no_seats : (ids : List ℤ) → length ids ≡ 0 → ids ≡ []
    no_seats [] e = refl
    no_seats (id ∷ ids) e = absurd (omega arith)

-- A purchase that the catalogue rule accepts is one for a program whose status is ON_SALE, for a
-- category of that program that is on sale, and each seat that it names is a seat of that program and
-- category that is not sold.
pub validate_catalog_sound :
    (equal_fold : String → String → Bool) (catalog : PurchaseCatalog) (cmd : CreateOrderCommand)
    → validate_catalog equal_fold catalog cmd ≡ ok tt
    → (current : Program) × (catalog.find_program cmd.program_id ≡ ok current)
      × (equal_fold current.status "ON_SALE" ≡ true)
      × (categories : List TicketCategory) × (catalog.list_ticket_categories cmd.program_id
          ≡ ok categories)
      × IsOnSale cmd categories
      × ((cmd.seat_ids ≡ [])
          ⊎ ((seats : List Seat) × (catalog.list_seats cmd.program_id cmd.ticket_category_id
                ≡ ok seats)
              × All (IsAvailable cmd seats) cmd.seat_ids))
unfolding validate_catalog
validate_catalog_sound equal_fold catalog cmd h =
    elim (Result-cases (catalog.find_program cmd.program_id)) [
      | inl (e, failed) ↦ absurd (ground (arith, failed))
      | inr (current, found) ↦ elim (Bool-cases (equal_fold current.status "ON_SALE")) [
        | inr closed ↦ absurd (ground (arith, found, closed))
        | inl selling ↦ elim (Result-cases (catalog.list_ticket_categories cmd.program_id)) [
          | inl (e, failed) ↦ absurd (ground (arith, found, selling, failed))
          | inr (categories, listed) ↦ elim (Result-cases (check_category cmd categories)) [
            | inl (e, failed) ↦ absurd (ground (arith, found, selling, listed, failed))
            | inr (u, checked) ↦ (
              current,
              found,
              selling,
              categories,
              listed,
              check_category-IsOnSale cmd categories checked,
              check_seats_sound catalog cmd (ground (arith, found, selling, listed, checked)),
            )
          ]
        ]
      ]
    ]

-- The ownership rule accepts a purchase only if each of its ticket users is one that the user service
-- lists for the buyer; without a user service it accepts none.
pub validate_ownership_sound :
    (source : Option (ℤ → Result (List ℤ))) (cmd : CreateOrderCommand)
    → validate_ownership source cmd ≡ ok tt
    → (list : ℤ → Result (List ℤ)) × (source ≡ some list)
      × (owned : List ℤ) × (list cmd.user_id ≡ ok owned)
      × All (λ id. Mem id owned) cmd.ticket_user_ids
unfolding validate_ownership
validate_ownership_sound none cmd h = absurd (ground arith)
validate_ownership_sound (some list) cmd h = elim (Result-cases (list cmd.user_id)) [
  | inl (e, failed) ↦ absurd (ground (arith, failed))
  | inr (owned, listed) ↦ (
    list,
    refl,
    owned,
    listed,
    All-map (λ id. contains-Mem id owned) cmd.ticket_user_ids
        (all_inside-All user_refused owned cmd.ticket_user_ids (ground (arith, listed))),
  )
]

abbrev pub Rule : Type 0
Rule = CreateOrderCommand → Result (Unit {0})

-- The rules that are not nil.
abbrev pub present : List (Option Rule) → List Rule
present [] = []
present (none ∷ rules) = present rules
present (some rule ∷ rules) = rule ∷ present rules

-- The pipeline accepts a purchase exactly if each of its rules that is not nil does.
pub validate_all_iff :
    (rules : List (Option Rule)) (cmd : CreateOrderCommand)
    → (validate_all rules cmd ≡ ok tt) ↔ All (λ rule. rule cmd ≡ ok tt) (present rules)
unfolding validate_all
validate_all_iff [] cmd = (λ h. tt, λ h. refl)
validate_all_iff (none ∷ rules) cmd = validate_all_iff rules cmd
validate_all_iff (some rule ∷ rules) cmd = elim (Result-cases (rule cmd)) [
  | inl (e, failed) ↦
      (λ h. absurd (ground (arith, h, failed)), λ h. absurd (ground (arith, h.0, failed)))
  | inr (u, passed) ↦ (
    λ h. (passed, (validate_all_iff rules cmd).0 (ground (arith, h, passed))),
    λ h. ground (arith, passed, (validate_all_iff rules cmd).1 h.1),
  )
]
