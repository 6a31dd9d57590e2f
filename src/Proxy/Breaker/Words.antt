-- ===== src/Proxy/Breaker/Words.antt =====
-- The packed word of breaker.rs: packing and unpacking are inverse on the tags and times in use.
use g2way.Common.{ℕ, ◌≡◌, ◌<◌, arith, u64_mod}
use g2way.Proxy.Breaker.{pack, unpack, since_mod}

-- A tag of two bits and a time of 62 bits come back from the packed word, which fits in 64 bits;
-- and every word of 64 bits is packed from its parts.
pub unpack-pack :
    (state since_ms word : ℕ)
    → state < 4
    → since_ms < since_mod
    → word < u64_mod
    → (unpack (pack state since_ms) ≡ (state, since_ms))
      × (pack state since_ms < u64_mod)
      × (pack (unpack word).0 (unpack word).1 ≡ word)
unfolding pack unpack
unpack-pack state since_ms word h k w = (ground arith, omega arith, omega arith)
