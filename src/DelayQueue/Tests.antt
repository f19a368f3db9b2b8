-- ===== src/DelayQueue/Tests.antt =====
-- Runs of the queue in memory, and the theorems on pkg/delayqueue at concrete inputs.
use ticket_hub.Common.{
  ℤ, pos, String, ◌≡◌, ◌≢◌, refl, inl, inr, true, List, [], ◌∷◌, map, arith, nat_eq, string_eq,
  int_eq, All, Mem, ◌+ℤ◌,
}
use ticket_hub.Common.Dict.{lookup, insert, erase}
use ticket_hub.DelayQueue.{
  Message, MemoryQueue, new_memory_queue, with_visibility_timeout, attempted, claim_due,
  claim_topic,
}
use ticket_hub.DelayQueue.Topic.{is_held}
use ticket_hub.DelayQueue.Operations.{
  Call, enqueuing, claiming, acking, call, run, maps_of, maps_of-run, topic_run,
}
use ticket_hub.DelayQueue.Invariant.{IsQueue, run-IsQueue, new_memory_queue-IsQueue}
use ticket_hub.DelayQueue.Delivery.{claimed, IsClaim, held_until_acked, claimed_in_order}
use ticket_hub.DelayQueue.Given.{given_once, due_is_given}

abbrev message : String → ℤ → Message
message id at = record {
  id = id;
  topic = "cancel";
  payload = "{}";
  available_at = at;
  attempts = pos 0;
}

abbrev empty_queue : MemoryQueue
empty_queue = with_visibility_timeout (pos 10) new_memory_queue

-- Three messages, the last of another topic.
abbrev filling : List Call
filling =
    enqueuing (message "2" (pos 7))
    ∷ enqueuing (message "1" (pos 7))
    ∷ enqueuing (record (message "9" (pos 1)) { topic = "other" })
    ∷ []

abbrev filled : MemoryQueue
filled = run filling empty_queue

filled-IsQueue : IsQueue filled
filled-IsQueue = run-IsQueue filling empty_queue (new_memory_queue-IsQueue (pos 10))

-- Both messages are due, and the limit takes the first by its id; the claim lasts ten.
first_claim : claimed "cancel" (pos 8) (pos 1) filled ≡ attempted (message "1" (pos 7)) ∷ []
unfolding run with_visibility_timeout new_memory_queue claim_due claim_topic lookup insert
first_claim = refl

maps_of-run_example :
    maps_of "cancel" (run filling empty_queue)
    ≡ topic_run "cancel" empty_queue.visibility_timeout filling (maps_of "cancel" empty_queue)
maps_of-run_example = maps_of-run "cancel" filling empty_queue

abbrev claims : List Call
claims =
    claiming "cancel" (pos 8) (pos 1)
    ∷ claiming "cancel" (pos 30) (pos 5)
    ∷ acking "cancel" "2"
    ∷ acking "other" "1"
    ∷ []

held_until_acked_example : is_held "1" (maps_of "cancel" (run claims filled)) ≡ true
unfolding run with_visibility_timeout new_memory_queue maps_of is_held lookup insert
held_until_acked_example =
    held_until_acked "cancel" "1" claims filled (tt, (tt, (refl, (refl, tt)))) refl

claimed_in_order_example :
    IsClaim "cancel" (pos 8) (pos 2) (claimed "cancel" (pos 8) (pos 2) filled)
claimed_in_order_example =
    claimed_in_order "cancel" (pos 8) (pos 2) filled filled-IsQueue (ground arith)

-- The message that was claimed at 8 is not given at 17, although it is due.
given_once_example :
    All
      (λ (m : Message). m.id ≢ "1")
      (claimed "cancel" (pos 17) (pos 5) (
        run
          (claiming "cancel" (pos 9) (pos 5) ∷ acking "cancel" "2" ∷ [])
          (call (claiming "cancel" (pos 8) (pos 1)) filled)))
unfolding run with_visibility_timeout new_memory_queue claim_due claim_topic lookup insert maps_of
    erase ◌+ℤ◌
given_once_example =
    given_once "cancel" (pos 8) (pos 1) (pos 17) (pos 5) filled
      (claiming "cancel" (pos 9) (pos 5) ∷ acking "cancel" "2" ∷ []) filled-IsQueue
      (attempted (message "1" (pos 7))) (inl refl) (λ same. omega arith, (tt, tt)) (omega arith)

-- A claim that has run out is given again.
due_is_given_example : Mem "1" (
    map
      (λ (m : Message). m.id)
      (claimed "cancel" (pos 18) (pos 2) (call (claiming "cancel" (pos 8) (pos 1)) filled)))
unfolding run with_visibility_timeout new_memory_queue claim_due claim_topic lookup insert maps_of
    erase ◌+ℤ◌
due_is_given_example =
    due_is_given "cancel" "1" (pos 18) (pos 2) (call (claiming "cancel" (pos 8) (pos 1)) filled)
      (run-IsQueue (claiming "cancel" (pos 8) (pos 1) ∷ []) filled filled-IsQueue) (omega arith)
      (omega arith)
      (inr (
        record { message = attempted (message "1" (pos 7)); visible_at = pos 18 },
        refl,
        omega arith,
      ))
