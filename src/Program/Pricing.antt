-- ===== src/Program/Pricing.antt =====
-- app/program-service/internal/application/program_pricing.go.
use ticket_hub.Common.{
  ℕ, ◌-◌, ◌*◌, ◌/◌, ◌^◌, ◌≤◌, ◌<◌, ℤ, pos, ◌≡◌, refl, ◌∙◌, inl, inr, true, not, ◌||◌, List, [], ◌∷◌,
  arith, if◌then◌else◌, Bool-cases, ◌==◌, nat_eq, string_eq, int_eq, Mem, pos_part, neg_part, ◌<ℤ◌,
  ltb_ℤ, leb_ℤ, eqb_ℤ_iff, mul64, quotient, neg_part-zero, pos_of, mul64-pos,
}
use ticket_hub.Errors.{Code, conflict, new_error, Result, ok, err, Result-cases}
use ticket_hub.Program.{TicketCategory, CreateOrderCommand, ticket_count}

-- `TicketCategorySource`, in the state that it is in.
abbrev pub CategorySource : Type 0
CategorySource = ℤ → Result (List TicketCategory)

-- `math.MaxInt64 / count`, for a count that is positive.
abbrev pub price_limit : ℤ → ℤ
price_limit count = quotient (pos (2 ^ 63 - 1)) (pos_part count)

-- The body of the loop of `CalculateAmount` for the category that is asked for.
unfoldable pub price_category : ℤ → TicketCategory → Result ℤ
price_category count item =
    if not item.sell_started
    then err (new_error conflict "ticket category is not on sale")
    else if leb_ℤ item.price_cent (pos 0) || ltb_ℤ (price_limit count) item.price_cent
    then err (new_error Code.invalid_argument "ticket price is invalid")
    else ok (mul64 item.price_cent count)

-- The loop.
unfoldable pub price_from : ℤ → ℤ → List TicketCategory → Result ℤ
unfolding price_category
price_from wanted count [] = err (new_error Code.not_found "ticket category not found")
price_from wanted count (item ∷ items) =
    let rest = price_from wanted count items in
    if not (item.id == wanted) then rest else price_category count item

-- `CalculateAmount`
unfoldable pub calculate_amount : CategorySource → CreateOrderCommand → Result ℤ
unfolding price_from
calculate_amount source cmd =
    let count = ticket_count cmd in
    if leb_ℤ count (pos 0)
    then err (new_error Code.invalid_argument "ticket user or seat is required")
    else elim (source cmd.program_id) [
      | err e ↦ err e
      | ok items ↦ price_from cmd.ticket_category_id count items
    ]

pub ticket_count_nonneg : (cmd : CreateOrderCommand) → neg_part (ticket_count cmd) ≡ 0
unfolding ticket_count
ticket_count_nonneg cmd = ground arith

quotient_fits : (p c m : ℕ) → 0 < c → p ≤ m / c → p * c ≤ m
quotient_fits p c m h fits = grind arith

price_category_exact :
    (count : ℤ) (item : TicketCategory) {amount : ℤ}
    → neg_part count ≡ 0
    → 0 < pos_part count
    → price_category count item ≡ ok amount
    → (item.sell_started ≡ true)
      × (pos 0 <ℤ item.price_cent)
      × (amount ≡ pos (pos_part item.price_cent * pos_part count))
      × (pos_part item.price_cent * pos_part count < 2 ^ 63)
unfolding price_category quotient
price_category_exact count item {amount} sign some_tickets e =
    elim (Bool-cases (leb_ℤ item.price_cent (pos 0) || ltb_ℤ (price_limit count) item.price_cent)) [
      | inl invalid ↦ absurd (ground (arith, invalid, Bool-cases item.sell_started))
      | inr valid ↦
          let positive : pos 0 <ℤ item.price_cent = ground (arith, valid) in
          let fits =
            quotient_fits (pos_part item.price_cent) (pos_part count) (2 ^ 63 - 1) some_tickets
              (ground (arith, valid)) in
          let started : item.sell_started ≡ true = ground (arith, Bool-cases item.sell_started) in
          let price_sign = neg_part-zero item.price_cent (omega arith) in
          let total : amount ≡ mul64 item.price_cent count = ground (arith, valid, started) in
          (
            started,
            positive,
            total
                ∙ cc (pos_of item.price_cent price_sign, pos_of count sign)
                ∙ mul64-pos (pos_part item.price_cent) (pos_part count) (omega arith),
            omega arith,
          )
    ]

-- The amount is the price of a category on sale times the count, and it fits an `int64`.
pub record IsPriced (items : List TicketCategory) (wanted count amount : ℤ) : Type 0 where
  pub item : TicketCategory
  pub listed : Mem item items
  pub wanted_lem : item.id ≡ wanted
  pub started : item.sell_started ≡ true
  pub price_positive : pos 0 <ℤ item.price_cent
  pub amount_lem : amount ≡ pos (pos_part item.price_cent * pos_part count)
  pub amount_small : pos_part item.price_cent * pos_part count < 2 ^ 63

price_from_exact :
    (wanted count : ℤ) (items : List TicketCategory) {amount : ℤ}
    → neg_part count ≡ 0
    → 0 < pos_part count
    → price_from wanted count items ≡ ok amount
    → IsPriced items wanted count amount
unfolding price_from
price_from_exact wanted count [] sign some_tickets e = absurd (ground arith)
price_from_exact wanted count (item ∷ items) {amount} sign some_tickets e =
    elim (Bool-cases (item.id == wanted)) [
      | inl hit ↦
          let (started, positive, total, fits) =
            price_category_exact count item {amount = amount} sign some_tickets
              (ground (arith, hit)) in
          record {
            item = item;
            listed = inl refl;
            wanted_lem = (eqb_ℤ_iff item.id wanted).0 hit;
            started = started;
            price_positive = positive;
            amount_lem = total;
            amount_small = fits;
          }
      | inr miss ↦
          let p : IsPriced items wanted count amount =
            price_from_exact wanted count items sign some_tickets (ground (arith, miss)) in
          record {
            item = p.item;
            listed = inr p.listed;
            wanted_lem = p.wanted_lem;
            started = p.started;
            price_positive = p.price_positive;
            amount_lem = p.amount_lem;
            amount_small = p.amount_small;
          }
    ]

-- The amount of an order is the price of a category of the program that is on sale, times the number
-- of the tickets, computed without overflow; the price and the number of tickets are positive.
pub calculate_amount_exact :
    (source : CategorySource) (cmd : CreateOrderCommand) (amount : ℤ)
    → calculate_amount source cmd ≡ ok amount
    → (items : List TicketCategory) × (source cmd.program_id ≡ ok items)
      × (pos 0 <ℤ ticket_count cmd)
      × IsPriced items cmd.ticket_category_id (ticket_count cmd) amount
unfolding calculate_amount
calculate_amount_exact source cmd amount e = elim (Bool-cases (leb_ℤ (ticket_count cmd) (pos 0))) [
  | inl empty ↦ absurd (ground (arith, empty))
  | inr filled ↦ elim (Result-cases (source cmd.program_id)) [
    | inl (x, failed) ↦ absurd (ground (arith, filled, failed))
    | inr (items, listed) ↦ (
      items,
      listed,
      ground (arith, filled),
      price_from_exact cmd.ticket_category_id (ticket_count cmd) items (ticket_count_nonneg cmd)
          (ground (arith, filled, ticket_count_nonneg cmd)) (ground (arith, filled, listed)),
    )
  ]
]
