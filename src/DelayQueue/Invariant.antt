-- ===== src/DelayQueue/Invariant.antt =====
-- The queue in memory stays well-formed under every call.
use ticket_hub.Common.{
  trivially, ℤ, pos, String, refl, sym, subst, inl, inr, not, ◌&&◌, List, arith, Bool-cases, ◌==◌,
  nat_eq, string_eq, int_eq, ◌≤ℤ◌, ltb_ℤ, leb_ℤ,
}
use ticket_hub.Common.Dict.{lookup, All-insert, All-erase, insert-IsDistinct, erase-IsDistinct}
use ticket_hub.DelayQueue.{TopicMaps, MemoryQueue, new_memory_queue, with_visibility_timeout}
use ticket_hub.DelayQueue.Topic.{IsKept, IsClaimed, IsTopic, claim_topic-IsTopic}
use ticket_hub.DelayQueue.Operations.{
  Call, enqueuing, claiming, acking, run, maps_of, topic_call, maps_of-run, topic_run-keeps,
  run-visibility_timeout,
}

pub topic_call-IsTopic :
    (topic : String) (timeout : ℤ)
    → pos 0 ≤ℤ timeout
    → (c : Call) (maps : TopicMaps) → IsTopic topic maps
    → IsTopic topic (topic_call topic timeout c maps)
unfolding topic_call
topic_call-IsTopic topic timeout long (enqueuing msg) (ready, claims) ((r, r'), (c, c')) =
    elim (Bool-cases (msg.topic == topic)) [
      | inl here ↦ rw here (
        (
          All-insert (IsKept topic) msg.id msg ready
              (refl, (string_eq.beq_iff msg.topic topic).0 here) r,
          insert-IsDistinct msg.id msg ready r',
        ),
        (All-erase (IsClaimed topic) msg.id claims c, erase-IsDistinct msg.id claims c'),
      )
      | inr elsewhere ↦ rw elsewhere ((r, r'), (c, c'))
    ]
topic_call-IsTopic topic timeout long (claiming at now limit) maps w =
    elim (Bool-cases (at == topic && not (leb_ℤ limit (pos 0)))) [
      | inl here ↦ rw here (claim_topic-IsTopic topic now timeout limit maps long w)
      | inr idle ↦ rw idle w
    ]
topic_call-IsTopic topic timeout long (acking at id) (ready, claims) ((r, r'), (c, c')) =
    elim (Bool-cases (at == topic)) [
      | inl here ↦ rw here (
        (All-erase (IsKept topic) id ready r, erase-IsDistinct id ready r'),
        (All-erase (IsClaimed topic) id claims c, erase-IsDistinct id claims c'),
      )
      | inr elsewhere ↦ rw elsewhere ((r, r'), (c, c'))
    ]

-- A queue whose topics are well-formed and whose claims end no earlier than they are made.
abbrev pub IsQueue : MemoryQueue → Type 0
IsQueue q = (pos 0 ≤ℤ q.visibility_timeout) × ((topic : String) → IsTopic topic (maps_of topic q))

-- Whatever is called, a well-formed queue stays well-formed.
pub run-IsQueue : (cs : List Call) (q : MemoryQueue) → IsQueue q → IsQueue (run cs q)
run-IsQueue cs q (long, w) = (
  subst (λ (t : ℤ). pos 0 ≤ℤ t) (sym (run-visibility_timeout cs q)) long,
  λ topic.
      subst (λ (m : TopicMaps). IsTopic topic m) (sym (maps_of-run topic cs q))
        (topic_run-keeps (IsTopic topic) (λ c. Unit) topic q.visibility_timeout
          (λ c. λ maps. λ h. topic_call-IsTopic topic q.visibility_timeout long c maps) cs
          (maps_of topic q) (trivially cs) (w topic)),
)

-- A queue as it is made.
pub new_memory_queue-IsQueue :
    (timeout : ℤ) → IsQueue (with_visibility_timeout timeout new_memory_queue)
unfolding with_visibility_timeout new_memory_queue maps_of lookup
new_memory_queue-IsQueue timeout = elim (Bool-cases (ltb_ℤ (pos 0) timeout)) [
  | inl given ↦ rw given (ground (arith, given), λ topic. ((tt, tt), (tt, tt)))
  | inr none_given ↦ rw none_given (ground arith, λ topic. ((tt, tt), (tt, tt)))
]
