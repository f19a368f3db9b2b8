-- ===== src/Idgen/Clock.antt =====
-- `nowMS` and `waitNextMillis` of pkg/idgen/snowflake.go.
use ticket_hub.Common.{
  quotient, ℕ, zero, suc, ◌+◌, ◌≤◌, ◌<◌, ℤ, pos, negsuc, ◌≡◌, Option, none, some, arith, leb_ℤ,
  ◌<ℤ◌, if◌then◌else◌, Bool-cases, inl, inr, IsInt64, pos_part, neg_part, subst, ◌^◌,
}

abbrev pub nanoseconds_per_millisecond : ℕ
nanoseconds_per_millisecond = 1_000_000

quotient_bounds :
    (a : ℤ)
    → IsInt64 a
    → (pos_part (quotient a nanoseconds_per_millisecond) < 2 ^ 44)
      × (neg_part (quotient a nanoseconds_per_millisecond) < 2 ^ 44)
unfolding quotient
quotient_bounds (pos n) h = omega arith
quotient_bounds (negsuc n) h = ground arith

module _ (clock : ℕ → ℤ) where
  unfoldable pub now_ms : ℕ → ℤ
  now_ms reading = quotient (clock reading) nanoseconds_per_millisecond

  -- The loop, from the reading that it takes first; `none` if `fuel` readings were not enough.
  unfoldable pub wait_next_millis : ℕ → ℤ → ℕ → Option (ℤ × ℕ)
  wait_next_millis zero last reading = none
  wait_next_millis (suc fuel) last reading =
      let later = wait_next_millis fuel last (reading + 1) in
      if leb_ℤ (now_ms reading) last then later else some (now_ms reading, reading + 1)

  -- What the loop gives is a reading past `last`.
  pub wait_next_millis-lt :
      (fuel : ℕ) (last : ℤ) (reading : ℕ) {now : ℤ} {next : ℕ}
      → wait_next_millis fuel last reading ≡ some (now, next)
      → (last <ℤ now) × (i : ℕ) × (now ≡ now_ms i) × (next ≡ i + 1) × (reading ≤ i)
  unfolding wait_next_millis
  wait_next_millis-lt zero last reading e = cc
  wait_next_millis-lt (suc fuel) last reading e = elim (Bool-cases (leb_ℤ (now_ms reading) last)) [
    | inl early ↦
        let (lt, i, at, next, from) =
          wait_next_millis-lt fuel last (reading + 1) (ground (arith, early)) in
        (lt, i, at, next, omega arith)
    | inr late ↦ (ground arith, reading, ground arith, ground arith, omega arith)
  ]

  -- The loop ends as soon as the clock has a reading past `last` within the fuel.
  pub wait_next_millis_total :
      (fuel : ℕ) (last : ℤ) (reading k : ℕ)
      → k < fuel
      → last <ℤ now_ms (reading + k)
      → (now : ℤ) × (next : ℕ) × (wait_next_millis fuel last reading ≡ some (now, next))
  unfolding wait_next_millis
  wait_next_millis_total zero last reading k h past = elim h [ ]
  wait_next_millis_total (suc fuel) last reading zero h past =
      let at : reading + 0 ≡ reading = omega arith in
      (now_ms reading, reading + 1, ground (arith, subst (λ i. last <ℤ now_ms i) at past))
  wait_next_millis_total (suc fuel) last reading (suc k) h past =
      elim (Bool-cases (leb_ℤ (now_ms reading) last)) [
        | inl early ↦
            let at : reading + suc k ≡ reading + 1 + k = omega arith in
            let (now, next, e) =
              wait_next_millis_total fuel last (reading + 1) k (omega arith)
                (subst (λ i. last <ℤ now_ms i) at past) in
            (now, next, rw early e)
        | inr late ↦ (now_ms reading, reading + 1, rw late)
      ]

  -- A reading in milliseconds is far inside an `int64`.
  pub now_ms_bounds :
      (i : ℕ) → IsInt64 (clock i) → (pos_part (now_ms i) < 2 ^ 44) × (neg_part (now_ms i) < 2 ^ 44)
  unfolding now_ms
  now_ms_bounds i h = quotient_bounds (clock i) h
