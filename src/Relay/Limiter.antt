-- ===== src/Relay/Limiter.antt =====
-- backend/socket.io/rateLimiter.ts: token buckets by key. Tokens are counted in thousandths, so that a
-- refill over some milliseconds is exact; the source's floating-point numbers are taken to be.
pub mod Rate
mod Tests
use k3ncrypt.Base.{
  ℕ, ◌+◌, ◌-◌, ◌*◌, min, String, string_eq, Bool, true, false, Option, none, some, List, [], ◌∷◌,
  ltb, if◌then◌else◌,
}
use k3ncrypt.Base.Dict.{Dict, get, put, delete}

pub record RateLimiterOptions : Type 0 where
  pub capacity : ℕ
  pub refill_per_second : ℕ

pub record Bucket : Type 0 where
  pub tokens : ℕ
  pub last_refill : ℕ

pub record RateLimiter : Type 0 where
  pub options : RateLimiterOptions
  pub buckets : Dict String Bucket

-- A new bucket is full.
abbrev pub or_full : RateLimiterOptions → ℕ → Option Bucket → Bucket
or_full o now none = record { tokens = o.capacity * 1000; last_refill = now }
or_full o now (some b) = b

-- `Math.max(0, now - lastRefill)` is subtraction that stops at zero.
pub refill : RateLimiterOptions → ℕ → Bucket → Bucket
refill o now b = record {
  tokens = min (o.capacity * 1000) (b.tokens + (now - b.last_refill) * o.refill_per_second);
  last_refill = now;
}

pub spend : ℕ → Bucket → Bucket × Bool
spend cost b =
    if ltb b.tokens (cost * 1000)
    then (b, false)
    else (record b { tokens = b.tokens - cost * 1000 }, true)

-- The bucket is the one that the map holds, changed in place.
pub consume : String → ℕ → ℕ → RateLimiter → RateLimiter × Bool
consume key cost now r =
    let (b, allowed) =
      spend cost (refill r.options now (or_full r.options now (get key r.buckets))) in
    (record r { buckets = put key b r.buckets }, allowed)

pub reset : String → RateLimiter → RateLimiter
reset key r = record r { buckets = delete key r.buckets }
