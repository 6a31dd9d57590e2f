-- ===== src/Storage/Memory/Rate/Decisions.antt =====
-- When `check_rate` of memory.rs allows a check, and when it will.
use g2way.Common.{
  ℕ, ◌+◌, ◌-◌, ◌≡◌, ◌↔◌, ◌⊎◌, inl, inr, sym, ap, ◌∙◌, ◌≤◌, ◌<◌, true, false, List, [], ◌∷◌, ◌++◌,
  none, some, Text, arith, length, get_elem?, lookup, text_eq_refl, ltb→lt, lt→ltb, length-append,
}
use native.Mathlib.Decide.{dec_lt}
use g2way.Storage.Memory.{MemoryStorage, slide, reset_of, check_rate}
use g2way.Storage.Memory.Window.{
  Logs, later-Logs, slide-Logs, slide-head, full-Logs, room-Logs, slide-reset,
}
use g2way.Storage.Memory.Rate.{
  log_of, check_rate_allowed, check_rate-log, after, admitted, Ordered, end_of, run_lem, fresh-Logs,
}

end_of-le :
    (calls : List (Text × ℕ)) (start now : ℕ) (key : Text)
    → Ordered start (calls ++ (key, now) ∷ [])
    → Ordered start calls × (end_of start calls ≤ now)
end_of-le [] start now key o = (tt, o.0)
end_of-le ((k, t) ∷ calls) start now key (le, o) =
    let (o', le') = end_of-le calls t now key o in ((le, o'), le')

few_of_Logs :
    (limit window now : ℕ) (h log : List ℕ)
    → Logs limit window now h log
    → length h < limit
    → ¬ (length log < limit)
    → ⊥
few_of_Logs limit window now h log v few full =
    let whole = ap length v.split ∙ length-append v.gone log in omega arith

room_iff :
    (limit window start now : ℕ) (h log : List ℕ)
    → start ≤ now
    → Logs limit window start h log
    → (length (slide window now log) < limit) ↔ (
        (length h < limit)
        ⊎ ((x : ℕ) × (get_elem? h (length h - limit) ≡ some x) × (x + window ≤ now)))
room_iff limit window start now h log le v =
    let v' = slide-Logs limit window now h log (later-Logs limit window start now h log le v) in
    (
      λ room. elim (dec_lt (length h) limit) [
        | yes few ↦ inl few
        | no many ↦ inr (room-Logs limit window now h _ v' room (omega arith))
      ],
      λ why. elim (dec_lt (length (slide window now log)) limit) [
        | yes room ↦ room
        | no full ↦ elim why [
          | inl few ↦ absurd (few_of_Logs limit window now h _ v' few full)
          | inr (x, at, over) ↦
              let head = full-Logs limit window now x h _ v' (omega arith) at in
              absurd (omega (arith, slide-head window now x log head))
        ]
      ],
    )

-- If a key has no log at the start and the checks, this one the last of them, reach the log in the
-- order of the clocks that they read, then after any history of checks of any keys this check is
-- allowed exactly when fewer than the limit were ever admitted, or the request that was admitted
-- `limit` before this one is at least a window old.
pub check_rate_allowed_iff :
    (rates : Text → ℕ × ℕ) (key : Text) (calls : List (Text × ℕ)) (now : ℕ) (s : MemoryStorage)
    → lookup key s.windows ≡ none
    → Ordered 0 (calls ++ (key, now) ∷ [])
    → let (limit, window) = rates key in
      let h = admitted rates key calls s in
      ((check_rate key limit window now (after rates calls s)).0.allowed ≡ true) ↔ (
        (length h < limit)
        ⊎ ((x : ℕ) × (get_elem? h (length h - limit) ≡ some x) × (x + window ≤ now)))
check_rate_allowed_iff rates key calls now s e o =
    let (o', le) = end_of-le calls 0 now key o in
    let (v, _) = run_lem rates key calls 0 [] s o' (fresh-Logs rates key s e) (λ i x y ex ey. cc) in
    let (to, from) = room_iff _ _ _ now _ _ le v in
    let same = check_rate_allowed key (rates key).0 (rates key).1 now (after rates calls s) in
    (λ a. to (ltb→lt _ _ (sym same ∙ a)), λ why. same ∙ lt→ltb _ _ (from why))

check_rate-reset :
    (key : Text) (limit window now : ℕ) (s : MemoryStorage)
    → (check_rate key limit window now s).0.reset_after
      ≡ reset_of window now (slide window now (log_of key s))
unfolding check_rate
check_rate-reset key limit window now s = ground arith

retry :
    (limit window start now : ℕ) (h : List ℕ) (key : Text) (s : MemoryStorage)
    → start ≤ now
    → Logs limit window start h (log_of key s)
    → 0 < limit
    → let r = check_rate key limit window now s in
      r.0.allowed ≡ false
      → (check_rate key limit window (now + r.0.reset_after) r.1).0.allowed ≡ true
retry limit window start now h key s le v pos denied =
    let r = check_rate key limit window now s in
    let log = slide window now (log_of key s) in
    let v' = slide-Logs limit window now h _ (later-Logs limit window start now h _ le v) in
    let full = sym (check_rate_allowed key limit window now s) ∙ denied in
    let log' = rw (text_eq_refl key, full) at (check_rate-log key key limit window now s) in
    let later = now + r.0.reset_after in
    let room =
      slide-reset limit window now h log pos v' (ground arith)
        (λ x at. slide-head window now x (log_of key s) at) in
    check_rate_allowed key limit window later r.1
    ∙ rw (log', check_rate-reset key limit window now s) (lt→ltb _ _ room)

-- After any history, a check that is turned down although the limit is not zero is allowed once
-- the time that it reported has passed, if nobody else checks the key until then.
pub check_rate_retry :
    (rates : Text → ℕ × ℕ) (key : Text) (calls : List (Text × ℕ)) (now : ℕ) (s : MemoryStorage)
    → lookup key s.windows ≡ none
    → Ordered 0 (calls ++ (key, now) ∷ [])
    → 0 < (rates key).0
    → (check_rate key (rates key).0 (rates key).1 now (after rates calls s)).0.allowed ≡ false
    → let (limit, window) = rates key in
      let r = check_rate key limit window now (after rates calls s) in
      (check_rate key limit window (now + r.0.reset_after) r.1).0.allowed ≡ true
check_rate_retry rates key calls now s e o pos denied =
    let (o', le) = end_of-le calls 0 now key o in
    let (v, _) = run_lem rates key calls 0 [] s o' (fresh-Logs rates key s e) (λ i x y ex ey. cc) in
    let (limit, window) = rates key in
    retry limit window _ now _ key (after rates calls s) le v pos denied
