-- ===== src/Order/Compensation/Retries.antt =====
-- app/order-service/internal/application/compensation.go: how many orders a retry goes through.
use ticket_hub.Common.{
  ℕ, suc, ◌+◌, ◌^◌, ◌<◌, ℤ, pos, String, ◌≡◌, ap, subst, ◌∙◌, inl, inr, List, [], ◌∷◌, arith,
  Bool-cases, nat_eq, string_eq, int_eq, length, leb_ℤ, add64, add64-pos,
}
use ticket_hub.Errors.{Result, ok, Result-cases}
use ticket_hub.Program.Creation.{CreateOrderEvent}
use ticket_hub.Order.Workers.{DiscardOrder}
use ticket_hub.Order.Compensation.{
  CompensationResult, CompensationService, CompensationWorld, retry_item, retry, retry_program,
  pending_limit,
}

module _ {D P E : Type 0} (encode : CreateOrderEvent → Result String)
    (s : CompensationService D P E) where
  retry_counted :
      (clock : ℕ → ℤ) (ds : List DiscardOrder) (a b : ℕ) (k : ℤ) (w : CompensationWorld D P E)
      (result : CompensationResult)
      → a + b + length ds < 2 ^ 63
      → (retry encode s clock ds (record { requested = k; retried = pos a; skipped = pos b }) w).0
        ≡ ok result
      → (a' b' : ℕ) × (result ≡ record { requested = k; retried = pos a'; skipped = pos b' })
        × (a' + b' ≡ a + b + length ds)
  unfolding retry
  retry_counted clock [] a b k w result bound done = (a, b, ground (arith, done), omega arith)
  retry_counted clock (d ∷ ds) a b k w result bound done =
      elim (Bool-cases (leb_ℤ d.user_id (pos 0))) [
        | inl nobody ↦
            let sum : add64 (pos b) (pos 1) ≡ pos (suc b) =
              add64-pos b 1 (omega arith) ∙ ap pos (omega arith) in
            let rest : (retry encode s clock ds
                  (record { requested = k; retried = pos a; skipped = pos (suc b) }) w).0
                ≡ ok result =
              subst
                (λ (t : ℤ).
                  (retry encode s clock ds (record { requested = k; retried = pos a; skipped = t })
                    w).0
                  ≡ ok result)
                sum (rw (retry, nobody) at done) in
            let (a', b', same, total) =
              retry_counted clock ds a (suc b) k w result (omega arith) rest in
            (a', b', same, omega arith)
        | inr user ↦ elim (Result-cases (retry_item encode s (clock 0) d w).0) [
          | inl (e, failed) ↦ absurd (ground (arith, user, failed, done))
          | inr (u, fine) ↦
              let w' = (retry_item encode s (clock 0) d w).1 in
              let later : ℕ → ℤ = λ i. clock (suc i) in
              let sum : add64 (pos a) (pos 1) ≡ pos (suc a) =
                add64-pos a 1 (omega arith) ∙ ap pos (omega arith) in
              let rest : (retry encode s later ds
                    (record { requested = k; retried = pos (suc a); skipped = pos b }) w').0
                  ≡ ok result =
                subst
                  (λ (t : ℤ).
                    (retry encode s later ds
                      (record { requested = k; retried = t; skipped = pos b }) w').0
                    ≡ ok result)
                  sum (rw (retry, user, fine) at done) in
              let (a', b', same, total) =
                retry_counted later ds (suc a) b k w' result (omega arith) rest in
              (a', b', same, omega arith)
        ]
      ]

  -- Of the orders that a program's retry was asked for, each is tried again or left out, where all
  -- goes well.
  retry_program_counted :
      (clock : ℕ → ℤ) (program limit : ℤ) (w : CompensationWorld D P E) (ds : List DiscardOrder)
      (result : CompensationResult)
      → s.discards.list_pending program (pending_limit limit) w.discards ≡ ok ds
      → length ds < 2 ^ 63
      → (retry_program encode s clock program limit w).0 ≡ ok result
      → (a b : ℕ) × (result
          ≡ record { requested = pos (length ds); retried = pos a; skipped = pos b })
        × (a + b ≡ length ds)
  unfolding retry_program
  retry_program_counted clock program limit w ds result listed bound done =
      let (a, b, same, total) =
        retry_counted clock ds 0 0 (pos (length ds)) w result (omega arith)
          (rw (retry_program, listed) at done) in
      (a, b, same, omega arith)
