-- ===== src/Program/Inventory/Laws.antt =====
-- app/program-service/internal/infrastructure/memory/inventory.go: locking seats and giving them
-- back.
use ticket_hub.Common.{
  ◌-◌, ◌≤◌, ◌<◌, ℤ, pos, ◌≡◌, refl, ap, subst, ◌∙◌, inl, inr, true, false, ◌&&◌, none, some, List,
  [], ◌∷◌, arith, if◌then◌else◌, Bool-cases, ◌==◌, nat_eq, string_eq, int_eq, ==_refl, pos_part,
  neg_part, sub_ℕ, ◌+ℤ◌, ◌-ℤ◌, ◌≤ℤ◌, ltb_ℤ, leb_ℤ, IsInt64, wrap64, add64, sub64,
}
use ticket_hub.Common.Dict.{Dict, lookup, insert, erase, lookup-insert, lookup-erase}
use ticket_hub.Errors.{GoError, ok, err}
use ticket_hub.Program.{contains, SeatStatus, locked, Seat, CreateOrderCommand, ticket_count}
use ticket_hub.Program.Pricing.{ticket_count_nonneg}
use ticket_hub.Program.Inventory.{
  InventoryLocker, remain_of, is_taken, is_locked, any_taken, lock_all, lock_seats, release_all,
  rollback_seats,
}

lookup-lock_all :
    (ids : List ℤ) (seats : Dict ℤ SeatStatus) (id : ℤ)
    → lookup id (lock_all ids seats) ≡ (if contains id ids then some locked else lookup id seats)
unfolding lock_all
lookup-lock_all [] seats id = refl
lookup-lock_all (j ∷ ids) seats id =
    ground (arith, lookup-lock_all ids (insert j locked seats) id, lookup-insert j id locked seats)

lookup-release_all :
    (ids : List ℤ) (seats : Dict ℤ SeatStatus) (id : ℤ)
    → lookup id (release_all ids seats)
      ≡ (if contains id ids && is_locked (lookup id seats) then none else lookup id seats)
unfolding release_all
lookup-release_all [] seats id = refl
lookup-release_all (j ∷ ids) seats id = elim (Bool-cases (is_locked (lookup j seats))) [
  | inl held ↦ ground (
    arith,
    held,
    int_eq.beq_iff j id,
    lookup-release_all ids (erase j seats) id,
    lookup-erase j id seats,
  )
  | inr free ↦ ground (arith, free, int_eq.beq_iff j id, lookup-release_all ids seats id)
]

any_taken-contains :
    (ids : List ℤ) (seats : Dict ℤ SeatStatus) (id : ℤ)
    → any_taken ids seats ≡ false
    → contains id ids ≡ true
    → is_taken (lookup id seats) ≡ false
unfolding any_taken
any_taken-contains [] seats id free inside = absurd (ground arith)
any_taken-contains (j ∷ ids) seats id free inside = elim (Bool-cases (j == id)) [
  | inl hit ↦
      let same = (int_eq.beq_iff j id).0 hit in
      subst (λ k. is_taken (lookup k seats) ≡ false) same
        (ground (arith, Bool-cases (is_taken (lookup j seats))))
  | inr miss ↦
      any_taken-contains ids seats id (ground (arith, Bool-cases (is_taken (lookup j seats))))
        (ground (arith, miss))
]

-- What `LockSeats` asked for where it succeeded, and what it leaves.
record LockedFor (cmd : CreateOrderCommand) (l l' : InventoryLocker) : Type 0 where
  some_tickets : leb_ℤ (ticket_count cmd) (pos 0) ≡ false
  enough : ltb_ℤ (remain_of l cmd.ticket_category_id) (ticket_count cmd) ≡ false
  free : any_taken cmd.seat_ids l.seat_map ≡ false
  taken : l' ≡ record {
    remain =
        insert cmd.ticket_category_id
          (sub64 (remain_of l cmd.ticket_category_id) (ticket_count cmd))
          l.remain;
    seat_map = lock_all cmd.seat_ids l.seat_map;
  }

lock_seats-LockedFor :
    (cmd : CreateOrderCommand) (l : InventoryLocker) {seats : List Seat}
    → (lock_seats cmd l).0 ≡ ok seats
    → LockedFor cmd l (lock_seats cmd l).1
unfolding lock_seats
lock_seats-LockedFor cmd l e = record {
  some_tickets = ground arith;
  enough = ground arith;
  free = ground arith;
  taken = ground arith;
}

remain_of-insert :
    (l : InventoryLocker) (seats : Dict ℤ SeatStatus) (category r id : ℤ)
    → remain_of (record { remain = insert category r l.remain; seat_map = seats }) id
      ≡ (if category == id then r else remain_of l id)
unfolding remain_of
remain_of-insert l seats category r id = ground (arith, lookup-insert category id r l.remain)

-- An exact subtraction: the count of the tickets is no more than what remains.
take_exact :
    (r count : ℤ)
    → IsInt64 r
    → neg_part count ≡ 0
    → count ≤ℤ r
    → sub64 r count ≡ sub_ℕ (pos_part r) (pos_part count)
unfolding wrap64 ◌-ℤ◌
take_exact r count fits sign enough = ground arith

give_back :
    (r count : ℤ) → IsInt64 r → neg_part count ≡ 0 → count ≤ℤ r → add64 (sub64 r count) count ≡ r
unfolding wrap64 ◌-ℤ◌ ◌+ℤ◌
give_back r count fits sign enough = ground arith

-- A lock that failed changed nothing.
pub lock_seats_failed :
    (cmd : CreateOrderCommand) (l : InventoryLocker) (e : GoError)
    → (lock_seats cmd l).0 ≡ err e
    → (lock_seats cmd l).1 ≡ l
unfolding lock_seats
lock_seats_failed cmd l e failed = ground arith

-- A lock that succeeded took the tickets from what remained of the category, which was enough, and
-- from no other category; each seat that was asked for had not been locked or sold, and is locked
-- now, and all other seats are as they were. What remained of the category is an `int64`.
pub lock_seats_takes :
    (cmd : CreateOrderCommand) (l : InventoryLocker) (seats : List Seat)
    → IsInt64 (remain_of l cmd.ticket_category_id)
    → (lock_seats cmd l).0 ≡ ok seats
    → let l' = (lock_seats cmd l).1 in
      let left = pos_part (remain_of l cmd.ticket_category_id) in
      let count = pos_part (ticket_count cmd) in
      (0 < count)
      × (count ≤ left)
      × ((id : ℤ)
          → remain_of l' id
            ≡ (if cmd.ticket_category_id == id then pos (left - count) else remain_of l id))
      × ((id : ℤ)
          → (contains id cmd.seat_ids ≡ true → is_taken (lookup id l.seat_map) ≡ false)
            × (lookup id l'.seat_map
                ≡ (if contains id cmd.seat_ids then some locked else lookup id l.seat_map)))
lock_seats_takes cmd l seats fits e =
    let h = lock_seats-LockedFor cmd l e in
    let sign = ticket_count_nonneg cmd in
    let r = remain_of l cmd.ticket_category_id in
    let enough : ticket_count cmd ≤ℤ r = ground (arith, h.enough) in
    let taken = take_exact r (ticket_count cmd) fits sign enough in
    let exact : sub64 r (ticket_count cmd) ≡ pos (pos_part r - pos_part (ticket_count cmd)) =
      ground (arith, taken, enough, sign) in
    (
      ground (arith, h.some_tickets),
      omega (arith, enough, sign),
      λ id.
          ap (λ t. remain_of t id) h.taken
          ∙ remain_of-insert l (lock_all cmd.seat_ids l.seat_map) cmd.ticket_category_id
              (sub64 r (ticket_count cmd)) id
          ∙ ap (λ t. if cmd.ticket_category_id == id then t else remain_of l id) exact,
      λ id. (
        any_taken-contains cmd.seat_ids l.seat_map id h.free,
        ap (λ t. lookup id t.seat_map) h.taken ∙ lookup-lock_all cmd.seat_ids l.seat_map id,
      ),
    )

-- Giving back what a lock took restores the inventory: every category has as much as before, and the
-- same seats are to be had. What remained of the category is an `int64`.
pub rollback_seats-lock_seats :
    (cmd : CreateOrderCommand) (l : InventoryLocker) (seats : List Seat)
    → IsInt64 (remain_of l cmd.ticket_category_id)
    → (lock_seats cmd l).0 ≡ ok seats
    → let l'' = (rollback_seats cmd (lock_seats cmd l).1).1 in
      ((id : ℤ) → remain_of l'' id ≡ remain_of l id)
      × ((id : ℤ) → is_taken (lookup id l''.seat_map) ≡ is_taken (lookup id l.seat_map))
unfolding rollback_seats
rollback_seats-lock_seats cmd l seats fits e =
    let h = lock_seats-LockedFor cmd l e in
    let sign = ticket_count_nonneg cmd in
    let r = remain_of l cmd.ticket_category_id in
    let l' = (lock_seats cmd l).1 in
    let enough : ticket_count cmd ≤ℤ r = ground (arith, h.enough) in
    let back = give_back r (ticket_count cmd) fits sign enough in
    let left : (id : ℤ)
        → remain_of l' id
          ≡ (if cmd.ticket_category_id == id then sub64 r (ticket_count cmd) else remain_of l id) =
      λ id.
        ap (λ t. remain_of t id) h.taken
        ∙ remain_of-insert l (lock_all cmd.seat_ids l.seat_map) cmd.ticket_category_id
            (sub64 r (ticket_count cmd)) id in
    let here : remain_of l' cmd.ticket_category_id ≡ sub64 r (ticket_count cmd) =
      left cmd.ticket_category_id ∙ rw (==_refl cmd.ticket_category_id) in
    (
      λ id. elim (Bool-cases (cmd.ticket_category_id == id)) [
        | inl hit ↦
            let same = (int_eq.beq_iff cmd.ticket_category_id id).0 hit in
            remain_of-insert l' (release_all cmd.seat_ids l'.seat_map) cmd.ticket_category_id _ id
            ∙ rw hit (ap (λ t. add64 t (ticket_count cmd)) here ∙ back ∙ ap (remain_of l) same)
        | inr miss ↦
            remain_of-insert l' (release_all cmd.seat_ids l'.seat_map) cmd.ticket_category_id _ id
            ∙ rw miss (left id ∙ rw miss)
      ],
      λ id.
          let after =
            ap (λ t. lookup id t.seat_map) h.taken ∙ lookup-lock_all cmd.seat_ids l.seat_map id in
          elim (Bool-cases (contains id cmd.seat_ids)) [
            | inl asked ↦
                let held : lookup id l'.seat_map ≡ some locked = after ∙ rw asked in
                ground (
                  arith,
                  asked,
                  held,
                  lookup-release_all cmd.seat_ids l'.seat_map id,
                  any_taken-contains cmd.seat_ids l.seat_map id h.free asked,
                )
            | inr other ↦
                let kept : lookup id l'.seat_map ≡ lookup id l.seat_map = after ∙ rw other in
                ground (arith, other, kept, lookup-release_all cmd.seat_ids l'.seat_map id)
          ],
    )
