-- ===== src/Middleware/RateLimit/Stages.antt =====
-- The stages of the layer of rate_limit.rs over the in-memory store of memory.rs: what each does to
-- the log of one rate counter.
use g2way.Common.{
  ℕ, ◌≡◌, ◌⊎◌, inl, inr, refl, sym, ap, ◌∙◌, ◌≤◌, Bool, true, false, not, List, [], ◌∷◌, ◌++◌,
  Option, none, some, Text, arith, if◌then◌else◌, ◌==◌, lookup, text_eq, text_eq_refl, text_eq_iff,
}
use g2way.Core.Session.Valid.{Given}
use g2way.Core.Session.{RateLimit, Quota, rate_limit_storage_key, quota_storage_key}
use g2way.Storage.{LimitDecision, from_secs}
use g2way.Storage.Memory.{MemoryStorage, or_empty, limiter, check_rate}
use g2way.Storage.Memory.Window.{Spaced, Logs, later-Logs}
use g2way.Storage.Memory.Rate.{log_of, check_rate_allowed, check_rate-log, own_step}
use g2way.Storage.Memory.Quota.{check_quota-windows}
use g2way.Middleware.Spike.{SpikeGuard}
use g2way.Middleware.RateLimit.{
  Verdict, proceeds, panics, rejects, Clock, CompiledEndpointLimit, SessionContext, Request, World,
  judge, and_then, limit_response, spike_limit, enforce_rate, enforce_quota, enforce_spike,
  enforce_session_rate, enforce_session_quota, enforce_allowances, enforce_session,
  enforce_endpoint,
}

-- Whether the request is not answered 429.
abbrev pub passes : Verdict → Bool
passes proceeds = true
passes panics = false
passes (rejects r) = not (r.status == 429)

-- Whether it carries the session whose rate counter stands under a key.
abbrev pub is_of : Text → Request → Bool
is_of key req = elim req.context [
  | none ↦ false
  | some ctx ↦ text_eq (rate_limit_storage_key ctx.session.org_id ctx.key_hash) key
]

module _ (clock : Clock) where
  spike_lem :
      (hash_one : Text → ℕ) (identity : Text) (limit : ℕ) (s : MemoryStorage)
      (guard : Option SpikeGuard)
      → let (v, w) =
          enforce_spike limiter clock hash_one identity limit
            (record { store = s; spike_guard = guard }) in
        (w.store ≡ s) × ((v ≡ proceeds) ⊎ (passes v ≡ false))
  unfolding enforce_spike limit_response
  spike_lem hash_one identity limit s none = (refl, inl refl)
  spike_lem hash_one identity limit s (some guard) = ground arith

  rate_lem :
      (key : Text) (limit window : ℕ) (w : World MemoryStorage)
      → let (v, w') = enforce_rate limiter clock key limit window w in
        let (d, s') = check_rate key limit window clock.now w.store in
        (w'.store ≡ s') × (passes v ≡ d.allowed) × ((v ≡ proceeds) ⊎ (passes v ≡ false))
  unfolding enforce_rate judge limit_response
  rate_lem key limit window w = ground arith

  quota_lem :
      (org_id identity : Text) (quota : Option Quota) (w : World MemoryStorage)
      → let (v, w') = enforce_session_quota limiter clock org_id identity quota w in
        (w'.store.windows ≡ w.store.windows) × (passes v ≡ true)
  unfolding enforce_session_quota enforce_quota judge limit_response
  quota_lem org_id identity none w = (refl, refl)
  quota_lem org_id identity (some q) w =
      let key = quota_storage_key org_id identity in
      ground
        (arith, check_quota-windows key q.max (from_secs q.renewal_rate_secs) clock.now w.store)

module _ (key : Text) (rate : RateLimit) (clock : Clock) where
  abbrev own : MemoryStorage → LimitDecision × MemoryStorage
  own s = check_rate key rate.requests (from_secs rate.per_seconds) clock.now s

  -- What a request with the session does to the log of its key: nothing and it is turned away, or
  -- what a check of the key does, and the check's answer is the request's.
  abbrev pub Step : MemoryStorage → Verdict × World MemoryStorage → Type 0
  Step s (v, w) =
      ((passes v ≡ false) × (log_of key w.store ≡ log_of key s))
      ⊎ ((passes v ≡ (own s).0.allowed) × (log_of key w.store ≡ log_of key (own s).1))

  -- A stage that turns the request away or lets it on, and leaves the log alone.
  pub gate-Step :
      (s : MemoryStorage) (r : Verdict × World MemoryStorage)
      (k : World MemoryStorage → Verdict × World MemoryStorage)
      → log_of key r.1.store ≡ log_of key s
      → (r.0 ≡ proceeds) ⊎ (passes r.0 ≡ false)
      → Step s (k r.1)
      → Step s (and_then r k)
  gate-Step s (proceeds, w) k e c d = d
  gate-Step s (panics, w) k e c d = inl (refl, e)
  gate-Step s (rejects x, w) k e (inl c) d = cc
  gate-Step s (rejects x, w) k e (inr c) d = inl (c, e)

  -- The last stage changes no log and answers 429 to nobody.
  rate-Step :
      (s : MemoryStorage) (r : Verdict × World MemoryStorage)
      (k : World MemoryStorage → Verdict × World MemoryStorage)
      → r.1.store ≡ (own s).1
      → passes r.0 ≡ (own s).0.allowed
      → (r.0 ≡ proceeds) ⊎ (passes r.0 ≡ false)
      → log_of key (k r.1).1.store ≡ log_of key r.1.store
      → passes (k r.1).0 ≡ true
      → Step s (and_then r k)
  rate-Step s (proceeds, w) k e p c f g = inr (g ∙ p, f ∙ ap (log_of key) e)
  rate-Step s (panics, w) k e p c f g = inr (p, ap (log_of key) e)
  rate-Step s (rejects x, w) k e p c f g = inr (p, ap (log_of key) e)

  -- A check reads nothing of the store but the log of its key.
  pub same_log-Step :
      (s s' : MemoryStorage) (r : Verdict × World MemoryStorage)
      → log_of key s' ≡ log_of key s
      → Step s' r
      → Step s r
  same_log-Step s s' r e (inl (p, f)) = inl (p, f ∙ e)
  same_log-Step s s' r e (inr (p, f)) =
      let allowed = λ (m : MemoryStorage).
        check_rate_allowed key rate.requests (from_secs rate.per_seconds) clock.now m in
      let left = λ (m : MemoryStorage).
        check_rate-log key key rate.requests (from_secs rate.per_seconds) clock.now m in
      let a = rw e at (allowed s') in
      let b = rw (text_eq_refl key, e) at (left s') in
      let c = rw (text_eq_refl key) at (left s) in inr (p ∙ (a ∙ sym (allowed s)), f ∙ (b ∙ sym c))

  own-Step :
      (hash_one : Text → ℕ) (org_id identity : Text) (quota : Option Quota)
      (w : World MemoryStorage)
      → rate_limit_storage_key org_id identity ≡ key
      → Step w.store (enforce_allowances limiter clock hash_one org_id identity (some rate) quota w)
  unfolding enforce_session_rate
  own-Step hash_one org_id identity quota w e =
      let (same, gate) =
        spike_lem clock hash_one identity (spike_limit (some rate) quota) w.store w.spike_guard in
      let r = enforce_spike limiter clock hash_one identity (spike_limit (some rate) quota) w in
      let (left, answer, ends) =
        rate_lem clock (rate_limit_storage_key org_id identity) rate.requests
          (from_secs rate.per_seconds) r.1 in
      let r' =
        enforce_rate limiter clock (rate_limit_storage_key org_id identity) rate.requests
          (from_secs rate.per_seconds) r.1 in
      let (kept, through) = quota_lem clock org_id identity quota r'.1 in
      gate-Step w.store r _ (ap (log_of key) same) gate (
        rate-Step w.store r' _ (left ∙ rw (e, same) refl) (answer ∙ rw (e, same) refl) ends
          (ap (λ (ws : List (Text × List ℕ)). or_empty (lookup key ws)) kept) through)

  -- A stage that leaves the log of the key alone.
  abbrev pub Keeps : MemoryStorage → Verdict × World MemoryStorage → Type 0
  Keeps s (v, w) = log_of key w.store ≡ log_of key s

  pub and_then-Keeps :
      (s : MemoryStorage) (r : Verdict × World MemoryStorage)
      (k : World MemoryStorage → Verdict × World MemoryStorage)
      → Keeps s r
      → Keeps r.1.store (k r.1)
      → Keeps s (and_then r k)
  and_then-Keeps s (proceeds, w) k e f = f ∙ e
  and_then-Keeps s (panics, w) k e f = e
  and_then-Keeps s (rejects x, w) k e f = e

  other_rate-Keeps :
      (other : Text) (limit window : ℕ) (w : World MemoryStorage)
      → text_eq other key ≡ false
      → Keeps w.store (enforce_rate limiter clock other limit window w)
  other_rate-Keeps other limit window w e =
      let (left, _, _) = rate_lem clock other limit window w in
      ap (log_of key) left ∙ rw e at (check_rate-log other key limit window clock.now w.store)

  pub endpoint-Keeps :
      {R : Type 0} (rule : Option (CompiledEndpointLimit R)) (w : World MemoryStorage)
      → Given (λ r. text_eq r.storage_key key ≡ false) rule
      → let r = enforce_endpoint limiter clock rule w in
        Keeps w.store r × ((r.0 ≡ proceeds) ⊎ (passes r.0 ≡ false))
  unfolding enforce_endpoint
  endpoint-Keeps none w e = (refl, inl refl)
  endpoint-Keeps (some r) w e =
      let (_, _, ends) = rate_lem clock r.storage_key r.requests r.window w in
      (other_rate-Keeps r.storage_key r.requests r.window w e, ends)

  session_rate-Keeps :
      (org_id identity : Text) (other : Option RateLimit) (w : World MemoryStorage)
      → text_eq (rate_limit_storage_key org_id identity) key ≡ false
      → Keeps w.store (enforce_session_rate limiter clock org_id identity other w)
  unfolding enforce_session_rate
  session_rate-Keeps org_id identity none w e = refl
  session_rate-Keeps org_id identity (some r) w e = other_rate-Keeps _ _ _ w e

  allowances-Keeps :
      (hash_one : Text → ℕ) (org_id identity : Text) (other : Option RateLimit)
      (quota : Option Quota) (w : World MemoryStorage)
      → text_eq (rate_limit_storage_key org_id identity) key ≡ false
      → Keeps w.store (enforce_allowances limiter clock hash_one org_id identity other quota w)
  allowances-Keeps hash_one org_id identity other quota w e =
      let (same, _) =
        spike_lem clock hash_one identity (spike_limit other quota) w.store w.spike_guard in
      let r = enforce_spike limiter clock hash_one identity (spike_limit other quota) w in
      let r' = enforce_session_rate limiter clock org_id identity other r.1 in
      and_then-Keeps w.store r _ (ap (log_of key) same) (
        and_then-Keeps r.1.store r' _ (session_rate-Keeps org_id identity other r.1 e) (
          ap (λ (ws : List (Text × List ℕ)). or_empty (lookup key ws))
            (quota_lem clock org_id identity quota r'.1).0))

  pub session-Keeps :
      (hash_one : Text → ℕ) (ctx : SessionContext) (w : World MemoryStorage)
      (other : Option RateLimit) (quota : Option Quota)
      → ctx.session.rate ≡ other
      → ctx.session.quota ≡ quota
      → text_eq (rate_limit_storage_key ctx.session.org_id ctx.key_hash) key ≡ false
      → Keeps w.store (enforce_session limiter clock hash_one (some ctx) w)
  unfolding enforce_session
  session-Keeps hash_one ctx w none none e e' h = rw (e, e') refl
  session-Keeps hash_one ctx w (some r) quota e e' h =
      rw (e, e') (allowances-Keeps hash_one ctx.session.org_id ctx.key_hash (some r) quota w h)
  session-Keeps hash_one ctx w none (some q) e e' h =
      rw (e, e') (allowances-Keeps hash_one ctx.session.org_id ctx.key_hash none (some q) w h)

  pub session-Step :
      (hash_one : Text → ℕ) (ctx : SessionContext) (w : World MemoryStorage)
      → ctx.session.rate ≡ some rate
      → text_eq (rate_limit_storage_key ctx.session.org_id ctx.key_hash) key ≡ true
      → Step w.store (enforce_session limiter clock hash_one (some ctx) w)
  unfolding enforce_session
  session-Step hash_one ctx w e h = rw e (
      own-Step hash_one ctx.session.org_id ctx.key_hash ctx.session.quota w
        ((text_eq_iff _ key).0 h))

  -- The invariant of the log, from one request to the next.
  abbrev pub Inv : ℕ → List ℕ → MemoryStorage → Type 0
  Inv now h s =
      Logs rate.requests (from_secs rate.per_seconds) now h (log_of key s)
      × Spaced rate.requests (from_secs rate.per_seconds) h

  pub kept-Inv :
      (start : ℕ) (h : List ℕ) (s s' : MemoryStorage)
      → start ≤ clock.now
      → log_of key s' ≡ log_of key s
      → Inv start h s
      → Inv clock.now h s'
  kept-Inv start h s s' le e (v, sp) = (rw e (later-Logs _ _ start clock.now h _ le v), sp)

  pub Step-Inv :
      (start : ℕ) (h : List ℕ) (s : MemoryStorage) (r : Verdict × World MemoryStorage)
      → start ≤ clock.now
      → Step s r
      → Inv start h s
      → Inv clock.now (if passes r.0 then h ++ clock.now ∷ [] else h) r.1.store
  Step-Inv start h s r le (inl (p, e)) inv = rw p (kept-Inv start h s r.1.store le e inv)
  Step-Inv start h s r le (inr (p, e)) (v, sp) =
      rw (p, e)
        (own_step key rate.requests (from_secs rate.per_seconds) start clock.now h s le v sp)
