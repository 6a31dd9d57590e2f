-- ===== src/Storage/Memory/Rate.antt =====
-- The sliding-window promise of `check_rate` in memory.rs, over any history of checks.
pub mod Decisions
use g2way.Common.{
  ℕ, ◌+◌, ◌-◌, ◌≡◌, ◌↔◌, ◌⊎◌, inl, inr, refl, sym, ap, ◌∙◌, ◌≤◌, ◌<◌, true, false, List, [], ◌∷◌,
  ◌++◌, none, some, Text, arith, length, get_elem?, ltb, if◌then◌else◌, lookup, lookup-insert,
  lookup-remove, text_eq, text_eq_iff, text_eq_refl, ◌&&◌, subst, ltb→lt, lt→ltb, length-append,
  Bool-cases,
}
use native.Mathlib.Decide.{dec_lt}
use mathlib.Core.List.{append-nil, append_assoc}
use g2way.Storage.{LimitDecision}
use g2way.Storage.Memory.{MemoryStorage, or_empty, slide, reset_of, check_rate}
use g2way.Storage.Memory.Window.{
  Spaced, Logs, later-Logs, slide-Logs, slide-head, push-Logs, push-Spaced, full-Logs, room-Logs,
  slide-reset,
}

abbrev pub log_of : Text → MemoryStorage → List ℕ
log_of key s = or_empty (lookup key s.windows)

-- The log after a check that found `log` live.
abbrev pub recorded : (limit now : ℕ) → List ℕ → List ℕ
recorded limit now log = if ltb (length log) limit then log ++ now ∷ [] else log

pub check_rate_allowed :
    (key : Text) (limit window now : ℕ) (s : MemoryStorage)
    → (check_rate key limit window now s).0.allowed
      ≡ ltb (length (slide window now (log_of key s))) limit
unfolding check_rate
check_rate_allowed key limit window now s = ground arith

-- A check rewrites the log of its own key, and no other.
pub check_rate-log :
    (key other : Text) (limit window now : ℕ) (s : MemoryStorage)
    → log_of other (check_rate key limit window now s).1 ≡ (
        if text_eq key other
        then recorded limit now (slide window now (log_of key s))
        else log_of other s)
unfolding check_rate
check_rate-log key other limit window now s =
    let log = slide window now (log_of key s) in
    ground (
      arith,
      lookup-insert key other (log ++ now ∷ []) s.windows,
      lookup-insert key other log s.windows,
      lookup-remove key other s.windows,
    )

-- Each key has its limit and its window; a check is a key and a time.
module _ (rates : Text → ℕ × ℕ) where
  abbrev check : Text × ℕ → MemoryStorage → LimitDecision × MemoryStorage
  check (key, now) s = check_rate key (rates key).0 (rates key).1 now s

  abbrev pub after : List (Text × ℕ) → MemoryStorage → MemoryStorage
  after [] s = s
  after (c ∷ calls) s = after calls (check c s).1

  -- The times at which checks of `key` were allowed.
  abbrev pub admitted : Text → List (Text × ℕ) → MemoryStorage → List ℕ
  admitted key [] s = []
  admitted key ((k, now) ∷ calls) s =
      let later = admitted key calls (check (k, now) s).1 in
      if text_eq k key && (check (k, now) s).0.allowed then now ∷ later else later

-- The clock does not go back.
abbrev pub Ordered : ℕ → List (Text × ℕ) → Type 0
Ordered start [] = Unit
Ordered start ((key, now) ∷ calls) = (start ≤ now) × Ordered now calls

abbrev pub end_of : ℕ → List (Text × ℕ) → ℕ
end_of start [] = start
end_of start ((key, now) ∷ calls) = end_of now calls

-- One check of the key itself: the log and the admitted requests stay in step.
pub own_step :
    (key : Text) (limit window start now : ℕ) (h : List ℕ) (s : MemoryStorage)
    → start ≤ now
    → Logs limit window start h (log_of key s)
    → Spaced limit window h
    → let r = check_rate key limit window now s in
      let h' = (if r.0.allowed then h ++ now ∷ [] else h) in
      Logs limit window now h' (log_of key r.1) × Spaced limit window h'
own_step key limit window start now h s le v sp =
    let log = slide window now (log_of key s) in
    let v' =
      slide-Logs limit window now h (log_of key s) (later-Logs limit window start now h _ le v) in
    let allowed = check_rate_allowed key limit window now s in
    let log' = rw (text_eq_refl key) at (check_rate-log key key limit window now s) in
    elim (Bool-cases (ltb (length log) limit)) [
      | inl room ↦
          rw (allowed, room, rw room at log')
            (
              push-Logs limit window now h log v' (ltb→lt _ _ room),
              push-Spaced limit window now h log v' (ltb→lt _ _ room) sp,
            )
      | inr full ↦ rw (allowed, full, rw full at log') (v', sp)
    ]

module _ (rates : Text → ℕ × ℕ) (key : Text) where
  any_step :
      (k : Text) (start now : ℕ) (h : List ℕ) (s : MemoryStorage)
      → start ≤ now
      → Logs (rates key).0 (rates key).1 start h (log_of key s)
      → Spaced (rates key).0 (rates key).1 h
      → let r = check_rate k (rates k).0 (rates k).1 now s in
        let h' = (if text_eq k key && r.0.allowed then h ++ now ∷ [] else h) in
        Logs (rates key).0 (rates key).1 now h' (log_of key r.1)
        × Spaced (rates key).0 (rates key).1 h'
  any_step k start now h s le v sp = elim (Bool-cases (text_eq k key)) [
    | inl own ↦ rw own (
        subst
          (λ (j : Text).
            let r = check_rate j (rates j).0 (rates j).1 now s in
            let h' = (if r.0.allowed then h ++ now ∷ [] else h) in
            Logs (rates key).0 (rates key).1 now h' (log_of key r.1)
            × Spaced (rates key).0 (rates key).1 h')
          (sym ((text_eq_iff k key).0 own))
          (own_step key (rates key).0 (rates key).1 start now h s le v sp))
    | inr other ↦
        rw (other, rw other at (check_rate-log k key (rates k).0 (rates k).1 now s))
          (later-Logs _ _ start now h _ le v, sp)
  ]

  pub run_lem :
      (calls : List (Text × ℕ)) (start : ℕ) (h : List ℕ) (s : MemoryStorage)
      → Ordered start calls
      → Logs (rates key).0 (rates key).1 start h (log_of key s)
      → Spaced (rates key).0 (rates key).1 h
      → Logs
          (rates key).0
          (rates key).1
          (end_of start calls)
          (h ++ admitted rates key calls s)
          (log_of key (after rates calls s))
        × Spaced (rates key).0 (rates key).1 (h ++ admitted rates key calls s)
  run_lem [] start h s o v sp = rw (append-nil h) (v, sp)
  run_lem ((k, now) ∷ calls) start h s (le, o) v sp =
      let (v', sp') = any_step k start now h s le v sp in
      let s' = (check_rate k (rates k).0 (rates k).1 now s).1 in
      elim (Bool-cases (text_eq k key && (check_rate k (rates k).0 (rates k).1 now s).0.allowed)) [
        | inl yes' ↦ rw yes' (
            rw (append_assoc h (now ∷ [])) at
              (run_lem calls now (h ++ now ∷ []) s' o (rw yes' at v') (rw yes' at sp')))
        | inr no' ↦ rw no' (run_lem calls now h s' o (rw no' at v') (rw no' at sp'))
      ]

  -- A key without a log has admitted nothing.
  pub fresh-Logs :
      (s : MemoryStorage)
      → lookup key s.windows ≡ none
      → Logs (rates key).0 (rates key).1 0 [] (log_of key s)
  fresh-Logs s e =
      rw e (record { gone = []; split = refl; over = tt; few = omega arith; past = tt })

-- If a key has no log at the start and the checks reach the log in the order of the clocks that they
-- read, no window of the key's length holds more admitted requests than its limit, whatever checks
-- of other keys come in between: the request number `limit` after an admitted one comes at least a
-- whole window later.
pub check_rate-Spaced :
    (rates : Text → ℕ × ℕ) (key : Text) (calls : List (Text × ℕ)) (s : MemoryStorage)
    → lookup key s.windows ≡ none
    → Ordered 0 calls
    → Spaced (rates key).0 (rates key).1 (admitted rates key calls s)
check_rate-Spaced rates key calls s e o =
    (run_lem rates key calls 0 [] s o (fresh-Logs rates key s e) (λ i x y ex ey. cc)).1
