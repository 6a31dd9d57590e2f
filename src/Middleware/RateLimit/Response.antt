-- ===== src/Middleware/RateLimit/Response.antt =====
-- The headers of a denial of rate_limit.rs.
use g2way.Common.{ℕ, ◌+◌, ◌*◌, ◌/◌, ◌≡◌, ◌⊎◌, ◌≤◌, ◌<◌, Text, arith, u64_mod}
use g2way.Storage.{LimitDecision}
use g2way.Middleware.RateLimit.{whole_secs, limit_response}

-- A response asks for a wait of at least a second that is less than a millisecond short of the
-- time that the check reported, and less than a second longer unless it is the least of one second;
-- it names the moment that this wait ends as the reset, if a `u64` holds it.
pub limit_response-wait :
    (status : ℕ) (message : Text) (limit now : ℕ) (d : LimitDecision)
    → d.reset_after / 1000000000 + 1 + now < u64_mod
    → let r = limit_response status message limit now d in
      (1 ≤ r.retry_after)
      × (d.reset_after < r.retry_after * 1000000000 + 1000000)
      × ((r.retry_after ≡ 1) ⊎ (r.retry_after * 1000000000 < d.reset_after + 1000000000))
      × (r.reset ≡ now + r.retry_after)
unfolding limit_response whole_secs
limit_response-wait status message limit now d h = ground arith
