-- ===== src/Proxy/Forward/Outcome.antt =====
-- What forward.rs makes of its circuit breaker: the state machine of the breaker, moved once by
-- each request, and nothing sent while it is open.
use g2way.Common.{
  ◌≡◌, refl, sym, ap, subst, ◌∙◌, ℕ, ◌<◌, Bool, true, false, [], Option, none, some, Text, codes,
}
use g2way.Proxy.Breaker.{
  CircuitBreaker, Event, success, failure, since_mod, try_acquire_at, record_success,
  record_failure_at, step,
}
use g2way.Proxy.Breaker
use g2way.Proxy.Breaker.Spec.{
  Circuit, closed, tripped, trial, admits, move, view, IsValid, step-refines,
}
use g2way.Proxy.Forward.{
  Outcome, Shared, Wire, ForwardTarget, Incoming, Reply, error_response, judge, tell, on_breaker,
  acquire, exchange, admitted_or_shed, forward,
}
use g2way.Proxy.Forward.Answer.{
  told, IsReported, judge-IsReported, IsReplied, wanted_upgrade, wanted-IsReplied,
}

-- The breaker that a state has, and what holds of it.
abbrev pub Has : (CircuitBreaker → Type 0) → Option CircuitBreaker → Type 0
Has P none = ⊥
Has P (some b) = P b

tell-told :
    (o : Option Bool) (after_ms : ℕ) (b : CircuitBreaker)
    → after_ms < since_mod
    → IsValid b
    → (view (tell o after_ms b) ≡ told b.threshold b.cooldown_ms after_ms o (view b))
      × IsValid (tell o after_ms b)
unfolding tell step
tell-told none after_ms b h v = (refl, v)
tell-told (some true) after_ms b h v =
    let (seen, valid, _, _, _) = step-refines success b tt v in (seen, valid)
tell-told (some false) after_ms b h v =
    let (seen, valid, _, _, _) = step-refines (failure after_ms) b h v in (seen, valid)

-- An admission and the report of an outcome, as moves of the specification.
acquire-tell-IsReported :
    (o : Option Outcome) (now_ms after_ms : ℕ) (b : CircuitBreaker)
    → now_ms < since_mod
    → after_ms < since_mod
    → IsValid b
    → let b' = tell (judge o) after_ms (try_acquire_at [] now_ms b).1 in
      IsValid b'
      × IsReported b.threshold b.cooldown_ms after_ms o
          (move b.threshold b.cooldown_ms (Breaker.acquire now_ms) (view b))
          (view b')
unfolding step
acquire-tell-IsReported o now_ms after_ms b n a valid =
    let (seen, valid', same, cool, _) = step-refines (Breaker.acquire now_ms) b n valid in
    let b1 = (try_acquire_at [] now_ms b).1 in
    let (moved, valid'') = tell-told (judge o) after_ms b1 a valid' in
    let c1 = move b.threshold b.cooldown_ms (Breaker.acquire now_ms) (view b) in
    let as_told =
      moved
      ∙ ap (λ t. told t b1.cooldown_ms after_ms (judge o) (view b1)) same
      ∙ ap (λ t. told b.threshold t after_ms (judge o) (view b1)) cool
      ∙ ap (told b.threshold b.cooldown_ms after_ms (judge o)) seen in
    (
      valid'',
      subst (IsReported b.threshold b.cooldown_ms after_ms o c1) (sym as_told)
          (judge-IsReported b.threshold b.cooldown_ms after_ms o c1),
    )

module _ {Addr W Rule : Type 0} (wire : Wire Addr W) (apply : Rule → Text → Option Text)
    (to_str from_str parse_name : Text → Option Text)
    (timeout : (Shared Addr W → Outcome × Shared Addr W)
      → Shared Addr W
      → Option Outcome × Shared Addr W)
    (target : ForwardTarget Rule) (now_ms after_ms : ℕ) (req : Incoming) (s : Shared Addr W)
    (b : CircuitBreaker) where
  -- The state that an admitted request starts with, and what the exchange makes of it.
  abbrev pub acquired : Shared Addr W
  acquired = record s { breaker = some (try_acquire_at [] now_ms b).1 }

  abbrev pub exchanged : Option Outcome × Shared Addr W
  exchanged = exchange wire apply to_str from_str parse_name timeout target req acquired

  -- The breaker, moved by the admission and by what the exchange came to.
  abbrev pub IsMoved : CircuitBreaker → Type 0
  IsMoved b' =
      IsValid b'
      × IsReported b.threshold b.cooldown_ms after_ms exchanged.0
          (move b.threshold b.cooldown_ms (Breaker.acquire now_ms) (view b)) (view b')

  -- Shed without a trace but the answer, or sent and reported to the breaker.
  abbrev pub IsForwarded : Bool → Option (Reply × Bool) × Shared Addr W → Type 0
  IsForwarded false (reply, s') =
      (reply ≡ some (error_response 503 (codes "upstream circuit open"), false))
      × (s'.world ≡ s.world)
      × (s'.targets ≡ s.targets)
      × (s'.cursor ≡ s.cursor)
      × Has (λ b'. view b' ≡ view b) s'.breaker
  IsForwarded true (reply, s') =
      IsReplied to_str parse_name (wanted_upgrade target.upgrades_enabled req) exchanged.0 reply
      × (s'.world ≡ exchanged.1.world)
      × (s'.targets ≡ exchanged.1.targets)
      × (s'.cursor ≡ exchanged.1.cursor)
      × Has IsMoved s'.breaker

module _ {Addr W Rule : Type 0} (wire : Wire Addr W) (apply : Rule → Text → Option Text)
    (to_str from_str parse_name : Text → Option Text)
    (timeout : (Shared Addr W → Outcome × Shared Addr W)
      → Shared Addr W
      → Option Outcome × Shared Addr W)
    (target : ForwardTarget Rule) where
  not_admitted :
      (threshold cooldown_ms now_ms : ℕ) (c : Circuit)
      → admits threshold cooldown_ms now_ms c ≡ false
      → move threshold cooldown_ms (Breaker.acquire now_ms) c ≡ c
  not_admitted threshold cooldown_ms now_ms (closed n) h = refl
  not_admitted threshold cooldown_ms now_ms (tripped since) h = rw h refl
  not_admitted threshold cooldown_ms now_ms (trial since) h = rw h refl

  -- A request moves the breaker as its state machine says. Where the machine does not admit it, it
  -- is shed with a 503 that says so, nothing is sent, no address is picked and the circuit stays.
  -- Where the machine admits it, it is answered by what the exchange came to: a 504 for a timeout, a
  -- 413 for a body over its limit, a 502 for a failed transport, a URI that cannot be built or a 101
  -- that was not asked for or is on another subprotocol, the 101 with its protocol for an upgrade, and
  -- otherwise the upstream's status, each with the headers of the response but for those of its
  -- connection; and the circuit is moved by one admission and by what the exchange came to, a
  -- failure for a timeout, a failed transport or a status of 500 to 599, a success for any other
  -- response, and nothing for a body over its limit or a URI that cannot be built. The breaker is
  -- valid, the clocks fit its word, and nobody else touches the breaker during the exchange.
  pub forward-IsForwarded :
      (now_ms after_ms : ℕ) (req : Incoming) (s : Shared Addr W) (b : CircuitBreaker)
      → s.breaker ≡ some b
      → IsValid b
      → now_ms < since_mod
      → after_ms < since_mod
      → ((s' : Shared Addr W)
          → (exchange wire apply to_str from_str parse_name timeout target req s').1.breaker
            ≡ s'.breaker)
      → IsForwarded wire apply to_str from_str parse_name timeout target now_ms after_ms req s b
          (admits b.threshold b.cooldown_ms now_ms (view b))
          (forward wire apply to_str from_str parse_name timeout target now_ms after_ms req s)
  unfolding forward step
  forward-IsForwarded now_ms after_ms req s b has valid n a alone =
      let (seen, _, _, _, answer) = step-refines (Breaker.acquire now_ms) b n valid in
      let s1 =
        acquired wire apply to_str from_str parse_name timeout target now_ms after_ms req s b in
      let b1 = (try_acquire_at [] now_ms b).1 in
      let r = exchange wire apply to_str from_str parse_name timeout target req s1 in
      let moved = acquire-tell-IsReported r.0 now_ms after_ms b n a valid in
      let replied = wanted-IsReplied to_str parse_name from_str target.upgrades_enabled req r.0 in
      let P =
        IsMoved wire apply to_str from_str parse_name timeout target now_ms after_ms req s b in
      subst
        (λ o.
          IsForwarded wire apply to_str from_str parse_name timeout target now_ms after_ms req s b
            (admits b.threshold b.cooldown_ms now_ms (view b))
            (admitted_or_shed wire apply to_str from_str parse_name timeout target after_ms req
              (record s { breaker = (acquire now_ms o).1 }) (acquire now_ms o).0))
        (sym has)
        (subst
          (λ x.
            IsForwarded wire apply to_str from_str parse_name timeout target now_ms after_ms req s b
              x
              (admitted_or_shed wire apply to_str from_str parse_name timeout target after_ms req s1
                (try_acquire_at [] now_ms b).0))
          answer
          ((elim (try_acquire_at [] now_ms b).0
              as (λ x.
                (try_acquire_at [] now_ms b).0 ≡ x
                → IsForwarded wire apply to_str from_str parse_name timeout target now_ms after_ms
                    req s b x
                    (admitted_or_shed wire apply to_str from_str parse_name timeout target after_ms
                      req s1 x)) [
                        | false ↦ λ e. (
                          refl,
                          refl,
                          refl,
                          refl,
                          seen
                              ∙ not_admitted b.threshold b.cooldown_ms now_ms (view b)
                                  (sym answer ∙ e),
                        )
                        | true ↦ λ e. (
                          replied,
                          refl,
                          refl,
                          refl,
                          subst (λ o. Has P (on_breaker (tell (judge r.0) after_ms) o))
                              (sym (alone s1)) moved,
                        )
                      ])
            refl))
