-- ===== src/Lock/Tests.antt =====
-- A run of the locker in memory, and the theorem on it at a concrete input.
use ticket_hub.Common.{
  pos, String, ◌≡◌, refl, true, List, [], ◌∷◌, arith, nat_eq, string_eq, int_eq, ◌+ℤ◌,
}
use ticket_hub.Common.Dict.{lookup}
use ticket_hub.Errors.{errorf, str, err}
use ticket_hub.Lock.Memory.{Call, acquiring, releasing, run, acquire, acquire-acquire}

abbrev others : List Call
others =
    acquiring (pos 6) "b" "k" (pos 4) ∷ releasing "k" "b" ∷ acquiring (pos 99) "c" "j" (pos 4) ∷ []

acquire-acquire_example :
    acquire (pos 14) "d" "k" (pos 5) (run others (acquire (pos 5) "a" "k" (pos 10) []).1) ≡ (
      err (errorf "lock %s is already held" (str "k" ∷ [])),
      run others (acquire (pos 5) "a" "k" (pos 10) []).1,
    )
unfolding acquire lookup ◌+ℤ◌
acquire-acquire_example =
    acquire-acquire (pos 5) (pos 10) "a" "k" [] others (pos 14) (pos 5) "d" refl
      (λ same. omega arith, (refl, (λ same. absurd (ground (arith, other same)), tt))) (omega arith)
  where
    other : ◌≡◌ {A = String} "j" "k" → string_eq.beq "j" "k" ≡ true
    other same = (string_eq.beq_iff "j" "k").1 same
