-- ===== src/Proxy/Forward/Attempts.antt =====
-- The attempts that the loop of forward.rs makes for one request.
use g2way.Common.{
  ◌≡◌, refl, ap, ◌∙◌, ℕ, zero, suc, ◌+◌, ◌≤◌, Bool, false, ◌&&◌, List, [], ◌∷◌, ◌++◌, Option, none,
  some, Text, arith, ◌==◌, Result, ok, err, length, length-append, All, All-append,
}
use g2way.Proxy.Rotation.{next_addr}
use g2way.Proxy.Rewrite.{UpstreamTarget}
use g2way.Proxy.Forward.{
  Outgoing, UpstreamResponse, ClientError, too_large, transport, bad_uri, panics, client, Shared,
  Parts, Wire, Outcome, outgoing, upstream_uri, answered, sent, attempt, run_attempts,
}

-- A call of the client's, with what it came to.
abbrev pub Exchange : Type 0
Exchange = Outgoing × Result UpstreamResponse ClientError

-- An attempt that was followed by another: it failed in transport, and had no body.
abbrev pub IsRetried : Exchange → Type 0
IsRetried (q, r) = (q.has_body ≡ false) × (r ≡ err transport)

-- How a sequence of at most `n` attempts, the latest first, accounts for its outcome.
abbrev pub IsAccount : ℕ → Bool → List Exchange → Outcome → Type 0
IsAccount n body [] (err bad_uri) = Unit
IsAccount n body [] (err panics) = Unit
IsAccount n body (x ∷ xs) (ok resp) =
    (x.1 ≡ ok resp) × (x.0.has_body ≡ (body && length xs + 1 == n)) × All IsRetried xs
IsAccount n body (x ∷ xs) (err (client too_large)) =
    (x.1 ≡ err too_large) × (x.0.has_body ≡ (body && length xs + 1 == n)) × All IsRetried xs
IsAccount n body (x ∷ xs) (err (client transport)) =
    (x.1 ≡ err transport) × (x.0.has_body ≡ body) × (length xs + 1 ≡ n) × All IsRetried xs
IsAccount n body (x ∷ xs) (err bad_uri) = All IsRetried (x ∷ xs)
IsAccount n body (x ∷ xs) (err panics) = All IsRetried (x ∷ xs)
IsAccount n body [] (ok resp) = ⊥
IsAccount n body [] (err (client e)) = ⊥

-- The calls of one run in front of those before it.
abbrev pub IsRun :
    {Addr W : Type 0}
    → (W → List Exchange)
    → ℕ
    → Bool
    → Shared Addr W
    → Outcome × Shared Addr W
    → Type 0
IsRun calls n body s (r, s') =
    (xs : List Exchange) × (calls s'.world ≡ xs ++ calls s.world)
    × (length xs ≤ n)
    × IsAccount n body xs r

further :
    (n : ℕ) (body : Bool) (xs : List Exchange) (x : Exchange)
    → (body && length xs + 1 == n) ≡ (body && length (xs ++ (x ∷ [])) + 1 == suc n)
further n body xs x = ground (arith, length-append xs (x ∷ []))

-- One attempt more at the far end of a sequence.
IsAccount-earlier :
    (n : ℕ) (body : Bool) (xs : List Exchange) (r : Outcome) (x : Exchange)
    → IsRetried x
    → IsAccount n body xs r
    → IsAccount (suc n) body (xs ++ (x ∷ [])) r
IsAccount-earlier n body [] (ok resp) x h k = absurd k
IsAccount-earlier n body [] (err (client e)) x h k = absurd k
IsAccount-earlier n body [] (err bad_uri) x h k = (h, tt)
IsAccount-earlier n body [] (err panics) x h k = (h, tt)
IsAccount-earlier n body (y ∷ xs) (ok resp) x h (e, b, hs) =
    (e, b ∙ further n body xs x, All-append IsRetried xs (x ∷ []) hs (h, tt))
IsAccount-earlier n body (y ∷ xs) (err (client too_large)) x h (e, b, hs) =
    (e, b ∙ further n body xs x, All-append IsRetried xs (x ∷ []) hs (h, tt))
IsAccount-earlier n body (y ∷ xs) (err (client transport)) x h (e, b, l, hs) =
    (e, b, omega (arith, length-append xs (x ∷ [])), All-append IsRetried xs (x ∷ []) hs (h, tt))
IsAccount-earlier n body (y ∷ xs) (err bad_uri) x h (k, hs) =
    (k, All-append IsRetried xs (x ∷ []) hs (h, tt))
IsAccount-earlier n body (y ∷ xs) (err panics) x h (k, hs) =
    (k, All-append IsRetried xs (x ∷ []) hs (h, tt))

module _ {Addr W Rule : Type 0} (wire : Wire Addr W) (apply : Rule → Text → Option Text)
    (target : UpstreamTarget Rule) (calls : W → List Exchange) (parts : Parts) (body : Bool) where
  -- A run with an earlier attempt in front of it.
  longer :
      (n : ℕ) (s s1 : Shared Addr W) (x : Exchange) (r : Outcome × Shared Addr W)
      → calls s1.world ≡ x ∷ calls s.world
      → IsRetried x
      → IsRun calls n body s1 r
      → IsRun calls (suc n) body s r
  longer n s s1 x (r, s') e h (xs, grown, short, account) = (
    xs ++ (x ∷ []),
    grown ∙ ap (λ ys. xs ++ ys) e ∙ regroup xs,
    omega (arith, length-append xs (x ∷ []), short),
    IsAccount-earlier n body xs r x h account,
  )
    where
      regroup : (ys : List Exchange) → ys ++ (x ∷ calls s.world) ≡ (ys ++ (x ∷ [])) ++ calls s.world
      regroup [] = refl
      regroup (y ∷ ys) = ap (λ zs. y ∷ zs) (regroup ys)

  answered-IsRun :
      (left : ℕ) (again : Shared Addr W → Outcome × Shared Addr W) (s : Shared Addr W)
      (q : Outgoing) (a : Result UpstreamResponse ClientError × Shared Addr W)
      → q.has_body ≡ (body && left == 0)
      → calls a.1.world ≡ (q, a.0) ∷ calls s.world
      → ((s1 : Shared Addr W) → IsRun calls left body s1 (again s1))
      → IsRun calls (suc left) body s (answered wire apply target again left a)
  answered-IsRun left again s q (ok resp, s1) b e ih =
      ((q, ok resp) ∷ [], e, omega arith, (refl, b ∙ only_one left, tt))
    where
      only_one : (left : ℕ) → (body && left == 0) ≡ (body && 0 + 1 == suc left)
      only_one left = ground arith
  answered-IsRun left again s q (err too_large, s1) b e ih =
      ((q, err too_large) ∷ [], e, omega arith, (refl, b ∙ only_one left, tt))
    where
      only_one : (left : ℕ) → (body && left == 0) ≡ (body && 0 + 1 == suc left)
      only_one left = ground arith
  answered-IsRun zero again s q (err transport, s1) b e ih =
      ((q, err transport) ∷ [], e, omega arith, (refl, ground arith, omega arith, tt))
  answered-IsRun (suc left) again s q (err transport, s1) b e ih =
      longer (suc left) s s1 (q, err transport) (again s1) e (ground arith, refl) (ih s1)

module _ {Addr W Rule : Type 0} (wire : Wire Addr W) (apply : Rule → Text → Option Text)
    (target : UpstreamTarget Rule) (calls : W → List Exchange) where
  -- However the client behaves, and whatever others do to the targets meanwhile, a request is sent
  -- at most as often as it may be attempted; every attempt before the latest failed in transport
  -- and was sent without the body, which only the last possible attempt carries; a response of the
  -- upstream, whatever its status, and a body over its limit end the sequence, and a transport
  -- failure is the outcome only when no attempt is left.
  pub run_attempts-IsRun :
      (recorded : (q : Outgoing) (s : Shared Addr W)
        → calls (wire.send q s).1.world ≡ (q, (wire.send q s).0) ∷ calls s.world)
      (n : ℕ) (parts : Parts) (body : Bool) (s : Shared Addr W)
      → IsRun calls n body s (run_attempts wire apply target n parts body s)
  unfolding run_attempts
  run_attempts-IsRun recorded zero parts body s = ([], refl, omega arith, tt)
  run_attempts-IsRun recorded (suc left) parts body s =
      picked (run_attempts-IsRun recorded left parts body) (next_addr s.targets s.cursor)
    where
      picked :
          ((s1 : Shared Addr W)
            → IsRun calls left body s1 (run_attempts wire apply target left parts body s1))
          → (o : Option (Addr × ℕ))
          → IsRun calls (suc left) body s (
              attempt wire apply target
                (run_attempts wire apply target left parts body)
                parts
                body
                left
                s
                o)
      picked ih none = ([], refl, omega arith, tt)
      picked ih (some (addr, cursor)) = built (upstream_uri wire apply target parts addr)
        where
          built :
              (o : Option Text)
              → IsRun calls (suc left) body s (
                  sent wire apply target
                    (run_attempts wire apply target left parts body)
                    parts
                    body
                    left
                    (record s { cursor = cursor })
                    o)
          built none = ([], refl, omega arith, tt)
          built (some uri) =
              let q = outgoing wire apply target parts body left uri in
              answered-IsRun wire apply target calls parts body left
                (run_attempts wire apply target left parts body) (record s { cursor = cursor }) q
                (wire.send q (record s { cursor = cursor })) refl
                (recorded q (record s { cursor = cursor })) ih
