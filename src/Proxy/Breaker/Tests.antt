-- ===== src/Proxy/Breaker/Tests.antt =====
-- The breaker of breaker.rs at concrete inputs.
use g2way.Common.{
  leb, if◌then◌else◌, ◌+◌, ◌^◌, ◌≡◌, refl, true, false, [], ◌∷◌, arith, All, Any, none,
}
use g2way.Proxy.Breaker.{
  CircuitBreaker, acquire, success, failure, pack, unpack, new, try_acquire_at, record_success,
  step, run, state_name, closed, opened, half_open, half_open_tag,
}
use g2way.Proxy.Breaker.Spec.{
  Circuit, trial, tripped, view, IsValid, new-IsValid, admits, move, moves, step-refines,
  run-refines,
}
use g2way.Proxy.Breaker.Spec
use g2way.Proxy.Breaker.Shield.{answers, run-failures, run-tripped}
use g2way.Proxy.Breaker.Races.{try_acquire_at-won, CooledDown}

-- Three failures in a row trip the breaker for 100 ms.
abbrev fresh : CircuitBreaker
fresh = new 3 100

abbrev open_at_7 : CircuitBreaker
open_at_7 = record { state = 2 ^ 62 + 7; failures = 0; threshold = 3; cooldown_ms = 100 }

abbrev trial_at_107 : CircuitBreaker
trial_at_107 = record { state = 2 ^ 63 + 107; failures = 0; threshold = 3; cooldown_ms = 100 }

fresh-threshold : fresh.threshold ≡ 3
unfolding new
fresh-threshold = refl

fresh-IsValid : IsValid fresh
fresh-IsValid = new-IsValid 3 100 (omega arith) (omega arith)

open_at_7-IsValid : IsValid open_at_7
unfolding unpack
open_at_7-IsValid = ground arith

trial_at_107-IsValid : IsValid trial_at_107
unfolding unpack
trial_at_107-IsValid = ground arith

trips : run (failure 5 ∷ failure 6 ∷ failure 7 ∷ []) fresh ≡ open_at_7
unfolding run step new
trips = refl

names :
    (state_name fresh ≡ closed)
    × (state_name open_at_7 ≡ opened)
    × (state_name trial_at_107 ≡ half_open)
unfolding state_name new pack
names = (refl, refl, refl)

recovers :
    (try_acquire_at [] 106 open_at_7 ≡ (false, open_at_7))
    × (try_acquire_at [] 107 open_at_7 ≡ (true, trial_at_107))
    × (record_success none trial_at_107 ≡ fresh)
unfolding try_acquire_at record_success new
recovers = (refl, refl, refl)

step-refines_example :
    (view (step (acquire 107) open_at_7) ≡ move 3 100 (acquire 107) (view open_at_7))
    × IsValid (step (acquire 107) open_at_7)
    × ((step (acquire 107) open_at_7).threshold ≡ 3)
    × ((step (acquire 107) open_at_7).cooldown_ms ≡ 100)
    × ((try_acquire_at [] 107 open_at_7).0 ≡ admits 3 100 107 (view open_at_7))
step-refines_example = step-refines (acquire 107) open_at_7 (omega arith) open_at_7-IsValid

run-refines_example :
    (view (run (failure 1 ∷ success ∷ acquire 2 ∷ []) open_at_7)
      ≡ moves 3 100 (failure 1 ∷ success ∷ acquire 2 ∷ []) (view open_at_7))
    × IsValid (run (failure 1 ∷ success ∷ acquire 2 ∷ []) open_at_7)
run-refines_example =
    run-refines (failure 1 ∷ success ∷ acquire 2 ∷ []) open_at_7 (omega arith) open_at_7-IsValid

fresh-view : view fresh ≡ Spec.closed 0
unfolding view new pack
fresh-view = refl

run-failures_example :
    (view (run (failure 5 ∷ failure 6 ∷ []) fresh) ≡ Spec.closed 2)
    × (view (step (failure 7) (run (failure 5 ∷ failure 6 ∷ []) fresh))
        ≡ (if leb fresh.threshold (2 + 1) then tripped 7 else Spec.closed (2 + 1)))
run-failures_example =
    run-failures fresh (5 ∷ 6 ∷ []) 7 fresh-IsValid fresh-view (omega arith) (omega arith)
      (rw fresh-threshold (omega arith))

open_at_7-view : view open_at_7 ≡ tripped 7
unfolding view
open_at_7-view = refl

run-tripped_example :
    (view (run (success ∷ failure 50 ∷ acquire 106 ∷ []) open_at_7) ≡ tripped 7)
    × All (λ a. a ≡ false) (answers (success ∷ failure 50 ∷ acquire 106 ∷ []) open_at_7)
run-tripped_example =
    run-tripped (success ∷ failure 50 ∷ acquire 106 ∷ []) open_at_7 7 open_at_7-IsValid
      open_at_7-view (omega arith) (omega arith)

trial_at_107-view : view trial_at_107 ≡ trial 107
unfolding view
trial_at_107-view = refl

-- Another thread re-opened the circuit first, as of 8; at 200 that cooldown is over too.
try_acquire_at-won_example :
    ((try_acquire_at ((2 ^ 62 + 8) ∷ []) 200 open_at_7).1.state ≡ pack half_open_tag 200)
    × Any (CooledDown 100 200) ((2 ^ 62 + 7) ∷ (2 ^ 62 + 8) ∷ [])
unfolding try_acquire_at
try_acquire_at-won_example = try_acquire_at-won ((2 ^ 62 + 8) ∷ []) 200 open_at_7 (omega arith) refl
