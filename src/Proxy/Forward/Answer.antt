-- ===== src/Proxy/Forward/Answer.antt =====
-- What forward.rs answers a client with, and what it tells its breaker, by what the exchange with
-- the upstream came to.
use g2way.Common.{
  subst, ◌≡◌, ◌≢◌, ◌⊎◌, inl, inr, refl, ◌∙◌, ℕ, ◌≤◌, ◌<◌, Bool, true, false, ◌&&◌, Option, none,
  some, Text, codes, arith, leb, ltb, ◌==◌, if◌then◌else◌, Bool-cases, Option-cases, text_eq_iff,
  ok, err, HeaderMap, get_header, text_eq, insert_header, get_header-insert, and_then,
}
use g2way.Proxy.Breaker.{success, failure}
use g2way.Proxy.Breaker.Spec.{Circuit, move}
use g2way.Proxy.Rewrite.{strip_hop_by_hop_headers}
use g2way.Proxy.Rewrite.Dropped.{is_dropped, strip_hop_by_hop_headers-get}
use g2way.Proxy.Forward.{
  UpstreamResponse, Incoming, upgrade_of, Outcome, Reply, Tunnel, error_response, relayed, upgraded,
  bad_uri, panics, client, too_large, transport, judge, reply_to, upgrade_response, switched,
  restore_upgrade,
}

abbrev pub Refused : ℕ → Text → Option (Reply × Bool) → Type 0
Refused status message answer = answer ≡ some (error_response status message, true)

-- What is told to a circuit, whose threshold and cooldown are given, at the time of the outcome.
module _ (threshold cooldown_ms after_ms : ℕ) where
  abbrev pub Fails : Circuit → Circuit → Type 0
  Fails c c' = c' ≡ move threshold cooldown_ms (failure after_ms) c

  abbrev pub Succeeds : Circuit → Circuit → Type 0
  Succeeds c c' = c' ≡ move threshold cooldown_ms success c

  -- A timeout and a failed transport are failures, as are the statuses from 500 to 599; any other
  -- response is a success; what the client or the configuration is to blame for is neither.
  abbrev pub IsReported : Option Outcome → Circuit → Circuit → Type 0
  IsReported none c c' = Fails c c'
  IsReported (some (ok resp)) c c' =
      ((500 ≤ resp.status) × (resp.status < 600) × Fails c c')
      ⊎ (((resp.status < 500) ⊎ (600 ≤ resp.status)) × Succeeds c c')
  IsReported (some (err (client transport))) c c' = Fails c c'
  IsReported (some (err (client too_large))) c c' = c' ≡ c
  IsReported (some (err bad_uri)) c c' = c' ≡ c
  IsReported (some (err panics)) c c' = c' ≡ c

  -- The moves of the specification that a verdict of the code makes.
  abbrev pub told : Option Bool → Circuit → Circuit
  told none c = c
  told (some true) c = move threshold cooldown_ms success c
  told (some false) c = move threshold cooldown_ms (failure after_ms) c

  pub judge-IsReported : (o : Option Outcome) (c : Circuit) → IsReported o c (told (judge o) c)
  unfolding judge
  judge-IsReported none c = refl
  judge-IsReported (some (ok resp)) c = elim (Bool-cases (leb 500 resp.status)) [
    | inl low ↦ elim (Bool-cases (ltb resp.status 600)) [
      | inl high ↦ inl (ground arith, ground arith, rw (low, high) refl)
      | inr over ↦ inr (inr (ground arith), rw (low, over) refl)
    ]
    | inr under ↦ inr (inl (ground arith), rw under refl)
  ]
  judge-IsReported (some (err (client transport))) c = refl
  judge-IsReported (some (err (client too_large))) c = refl
  judge-IsReported (some (err bad_uri)) c = refl
  judge-IsReported (some (err panics)) c = refl

-- An upgrade takes a target that allows it, a connection that can be taken over, and a protocol.
abbrev pub asked_upgrade : Bool → Bool → Option Text → Tunnel → Option (Text × Tunnel)
asked_upgrade true true (some protocol) tunnel = some (protocol, tunnel)
asked_upgrade true true none tunnel = none
asked_upgrade true false protocol tunnel = none
asked_upgrade false can protocol tunnel = none

abbrev pub wanted_upgrade : Bool → Incoming → Option (Text × Tunnel)
wanted_upgrade enabled req =
    asked_upgrade enabled req.on_upgrade (get_header (codes "upgrade") req.headers) req.tunnel

upgrade_of_lem :
    (enabled : Bool) (req : Incoming) → upgrade_of enabled req ≡ wanted_upgrade enabled req
unfolding upgrade_of
upgrade_of_lem enabled req =
    by_parts enabled req.on_upgrade (get_header (codes "upgrade") req.headers)
  where
    by_parts :
        (enabled can : Bool) (protocol : Option Text)
        → (if enabled && can then and_then protocol (λ p. some (p, req.tunnel)) else none)
          ≡ asked_upgrade enabled can protocol req.tunnel
    by_parts true true (some p) = refl
    by_parts true true none = refl
    by_parts true false protocol = refl
    by_parts false can protocol = refl

abbrev pub timed : Option Reply → Option (Reply × Bool)
timed o = and_then o λ reply. some (reply, true)

module _ (to_str parse_name : Text → Option Text) where
  -- The upstream's headers, without those of its connection.
  abbrev pub IsRelayed : UpstreamResponse → Option (Reply × Bool) → Type 0
  IsRelayed resp answer =
      (headers : HeaderMap) × (answer ≡ some (relayed resp.status headers, true))
      × ((name : Text)
          → get_header name headers ≡ (
              if is_dropped to_str parse_name resp.headers name
              then none
              else get_header name resp.headers))

  -- The same, with the protocol that the upstream switches to and a `Connection` of the gateway's.
  abbrev pub switched_header : HeaderMap → Text → Option Text
  switched_header hs name =
      if text_eq (codes "upgrade") name
      then get_header name hs
      else if text_eq (codes "connection") name
      then some (codes "upgrade")
      else if is_dropped to_str parse_name hs name
      then none
      else get_header name hs

  abbrev pub IsUpgraded : UpstreamResponse → Option (Reply × Bool) → Type 0
  IsUpgraded resp answer =
      (headers : HeaderMap) × (answer ≡ some (upgraded headers, true))
      × ((name : Text) → get_header name headers ≡ switched_header resp.headers name)

  -- A 101 of the upstream: an upgrade that was asked for, on a subprotocol that is accepted.
  abbrev pub IsSwitched : Option (Text × Tunnel) → UpstreamResponse → Option (Reply × Bool) → Type 0
  IsSwitched none resp answer =
      Refused 502 (codes "unexpected upgrade response from upstream") answer
  IsSwitched (some (protocol, none)) resp answer = IsUpgraded resp answer
  IsSwitched (some (protocol, some accepted)) resp answer =
      ((accepted (get_header (codes "sec-websocket-protocol") resp.headers) ≡ true)
        × IsUpgraded resp answer)
      ⊎ ((accepted (get_header (codes "sec-websocket-protocol") resp.headers) ≡ false)
          × Refused 502 (codes "upstream negotiated an unsupported WebSocket subprotocol") answer)

  -- The answer, with the flag that it has the upstream's latency on it.
  abbrev pub IsReplied : Option (Text × Tunnel) → Option Outcome → Option (Reply × Bool) → Type 0
  IsReplied upgrade none answer = Refused 504 (codes "upstream request timed out") answer
  IsReplied upgrade (some (ok resp)) answer =
      ((resp.status ≡ 101) × IsSwitched upgrade resp answer)
      ⊎ ((resp.status ≢ 101) × IsRelayed resp answer)
  IsReplied upgrade (some (err (client too_large))) answer =
      Refused 413 (codes "request body too large") answer
  IsReplied upgrade (some (err (client transport))) answer =
      Refused 502 (codes "upstream request failed") answer
  IsReplied upgrade (some (err bad_uri)) answer =
      Refused 502 (codes "invalid upstream request") answer
  IsReplied upgrade (some (err panics)) answer = answer ≡ none

  abbrev switched_headers : (Text → Option Text) → HeaderMap → HeaderMap
  switched_headers from_str hs =
      restore_upgrade to_str from_str parse_name (get_header (codes "upgrade") hs) (
        insert_header (codes "connection") (codes "upgrade")
          (strip_hop_by_hop_headers to_str parse_name hs))

  switched_headers-get :
      (from_str : Text → Option Text) (hs : HeaderMap) (name : Text)
      → get_header name (switched_headers from_str hs) ≡ switched_header hs name
  switched_headers-get from_str hs name =
      let stripped = strip_hop_by_hop_headers to_str parse_name hs in
      let kept = strip_hop_by_hop_headers-get to_str parse_name name hs in
      let mine = get_header-insert (codes "connection") (codes "upgrade") name stripped in
      elim (Option-cases (get_header (codes "upgrade") hs)) [
        | inl e ↦ rw e (
            mine
            ∙ ground (
              arith,
              kept,
              text_eq_iff (codes "upgrade") name,
              text_eq_iff (codes "connection") name,
            ))
        | inr (protocol, e) ↦ rw e (
            get_header-insert (codes "upgrade") protocol name
              (insert_header (codes "connection") (codes "upgrade") stripped)
            ∙ ground (arith, mine, kept, text_eq_iff (codes "upgrade") name))
      ]

  switched-IsSwitched :
      (from_str : Text → Option Text) (upgrade : Option (Text × Tunnel)) (resp : UpstreamResponse)
      → IsSwitched upgrade resp (some (switched to_str from_str parse_name upgrade resp, true))
  unfolding upgrade_response
  switched-IsSwitched from_str none resp = refl
  switched-IsSwitched from_str (some (protocol, none)) resp =
      (switched_headers from_str resp.headers, refl, switched_headers-get from_str resp.headers)
  switched-IsSwitched from_str (some (protocol, some accepted)) resp =
      elim (Bool-cases (accepted (get_header (codes "sec-websocket-protocol") resp.headers))) [
        | inl agreed ↦ inl (
          agreed,
          (
            switched_headers from_str resp.headers,
            rw agreed refl,
            switched_headers-get from_str resp.headers,
          ),
        )
        | inr refused ↦ inr (refused, rw refused refl)
      ]

  reply_to-IsReplied :
      (from_str : Text → Option Text) (upgrade : Option (Text × Tunnel)) (o : Option Outcome)
      → IsReplied upgrade o (timed (reply_to to_str from_str parse_name upgrade o))
  unfolding reply_to
  reply_to-IsReplied from_str upgrade none = refl
  reply_to-IsReplied from_str upgrade (some (ok resp)) = elim (Bool-cases (resp.status == 101)) [
    | inl same ↦ inl (ground arith, rw same (switched-IsSwitched from_str upgrade resp))
    | inr other ↦ inr (
      ground arith,
      (
        strip_hop_by_hop_headers to_str parse_name resp.headers,
        rw other refl,
        λ name. strip_hop_by_hop_headers-get to_str parse_name name resp.headers,
      ),
    )
  ]
  reply_to-IsReplied from_str upgrade (some (err (client too_large))) = refl
  reply_to-IsReplied from_str upgrade (some (err (client transport))) = refl
  reply_to-IsReplied from_str upgrade (some (err bad_uri)) = refl
  reply_to-IsReplied from_str upgrade (some (err panics)) = refl

  pub wanted-IsReplied :
      (from_str : Text → Option Text) (enabled : Bool) (req : Incoming) (o : Option Outcome)
      → IsReplied
          (wanted_upgrade enabled req)
          o
          (timed (reply_to to_str from_str parse_name (upgrade_of enabled req) o))
  wanted-IsReplied from_str enabled req o =
      subst
        (λ u.
          IsReplied u o (timed (reply_to to_str from_str parse_name (upgrade_of enabled req) o)))
        (upgrade_of_lem enabled req) (reply_to-IsReplied from_str (upgrade_of enabled req) o)
