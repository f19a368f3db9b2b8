-- ===== src/Idgen/Tests.antt =====
-- Runs of the generators on a concrete clock, and the theorems on pkg/idgen at concrete inputs.
use ticket_hub.Common.{
  quotient, ℕ, ◌+◌, ◌*◌, ℤ, pos, negsuc, ◌≡◌, refl, some, List, [], ◌∷◌, arith, IsInt64, ◌<ℤ◌,
  wrap64, ◌-ℤ◌, ◌+ℤ◌,
}
use ticket_hub.Common.Bits.{shl64, or64, and64}
use ticket_hub.Errors.{Result, ok}
use ticket_hub.Idgen.Clock.{now_ms}
use ticket_hub.Idgen.Snowflake.{Snowflake, default_epoch_ms}
use ticket_hub.Idgen.OrderNumber.{
  OrderNumberGenerator, user_gene, extract_user_gene, finish, next_slot, conclude,
  next_order_number_of, next_order_number,
}
use ticket_hub.Idgen.Numbers.{IsValid}
use ticket_hub.Idgen.Calls.{extract_user_gene-next_order_number}
use ticket_hub.Idgen.Progress.{next_order_number_total}
use ticket_hub.Idgen.Rising.{issue_all, issued_numbers, Ascending, issue_all-Ascending}

-- A clock that stands still, ten milliseconds after the epoch of the generators.
abbrev still : ℕ → ℤ
still i = pos (1_704_067_200_010 * 1_000_000)

still-IsInt64 : (i : ℕ) → IsInt64 (still i)
still-IsInt64 i = omega arith

-- A clock that moves on by a third of a millisecond with each reading.
abbrev slow : ℕ → ℤ
slow i = pos (1_704_067_200_010 * 1_000_000 + i * 333_334)

abbrev node_three : Snowflake
node_three = record {
  epoch_ms = default_epoch_ms;
  node_id = pos 3;
  last_ms = pos 0;
  sequence = pos 0;
}

abbrev fresh : OrderNumberGenerator
fresh = record { ids = some node_three; last_ms = pos 0; sequence = pos 0 }

fresh-IsValid : IsValid node_three fresh
fresh-IsValid = record {
  source = refl;
  epoch = refl;
  node = omega arith;
  sequence = omega arith;
  last = omega arith;
}

abbrev two_calls : List ℤ
two_calls = pos 1029 ∷ negsuc 6 ∷ []

-- 10 ms, node 3, sequences 0 and 1, genes 5 and 7
abbrev two_numbers : List (Result ℤ)
two_numbers = ok (pos 85_458_949) ∷ ok (pos 85_459_975) ∷ []

abbrev after_two : OrderNumberGenerator
after_two = record { ids = some node_three; last_ms = pos 1_704_067_200_010; sequence = pos 1 }

issue_all_runs : issue_all still 3 fresh two_calls 0 ≡ some (two_numbers, after_two, 2)
unfolding issue_all next_order_number next_order_number_of conclude next_slot now_ms quotient finish
    user_gene shl64 or64 and64 wrap64 ◌-ℤ◌ ◌+ℤ◌
issue_all_runs = refl

issue_all-Ascending_example : Ascending (issued_numbers two_numbers)
issue_all-Ascending_example =
    issue_all-Ascending still still-IsInt64 3 two_calls fresh 0 fresh-IsValid issue_all_runs

abbrev after_one : OrderNumberGenerator
after_one = record { ids = some node_three; last_ms = pos 1_704_067_200_010; sequence = pos 0 }

next_order_number_runs :
    next_order_number still 3 fresh (pos 1029) 0 ≡ some (ok (pos 85_458_949), after_one, 1)
unfolding next_order_number next_order_number_of conclude next_slot now_ms quotient finish user_gene
    shl64 or64 and64 wrap64 ◌-ℤ◌ ◌+ℤ◌
next_order_number_runs = refl

extract_user_gene-next_order_number_example :
    extract_user_gene (pos 85_458_949) ≡ user_gene (pos 1029)
extract_user_gene-next_order_number_example =
    extract_user_gene-next_order_number still still-IsInt64 3 fresh (pos 1029) 0 fresh-IsValid
      next_order_number_runs

slow_reaches : pos 1_704_067_200_010 <ℤ now_ms slow (1 + 2)
unfolding now_ms quotient
slow_reaches = omega arith

slow_moves : now_ms slow 0 <ℤ now_ms slow (0 + 1 + 2)
unfolding now_ms quotient
slow_moves = omega arith

next_order_number_total_example :
    (r : Result ℤ) × (g' : OrderNumberGenerator) × (next : ℕ) × (next_order_number slow 3 fresh
        (pos 1029)
        0
      ≡ some (r, g', next))
next_order_number_total_example =
    next_order_number_total slow 3 fresh (pos 1029) 0 2 (omega arith) slow_moves
