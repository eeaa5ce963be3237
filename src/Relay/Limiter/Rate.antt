-- ===== src/Relay/Limiter/Rate.antt =====
-- backend/socket.io/rateLimiter.ts: how much is let through over a stretch of time.
use k3ncrypt.Base.{
  ℕ, ◌+◌, ◌-◌, ◌*◌, ◌≤◌, ◌≡◌, refl, inl, inr, String, string_eq, ◌==◌, false, ◌&&◌, some, List, [],
  ◌∷◌, if◌then◌else◌, arith, Bool-cases, ◌∙◌,
}
use text.Mathlib.TextEquality.{eq_iff}
use k3ncrypt.Base.Dict.{get, get-put, get-put_self}
use k3ncrypt.Relay.Limiter.{
  RateLimiterOptions, Bucket, RateLimiter, or_full, refill, spend, consume,
}

-- A call of `consume`.
pub record Request : Type 0 where
  pub key : String
  pub cost : ℕ
  pub now : ℕ

-- The tokens that were let through for a key.
unfoldable pub granted : String → List Request → RateLimiter → ℕ
granted key [] r = 0
granted key (q ∷ log) r =
    let (r', allowed) = consume q.key q.cost q.now r in
    let rest = granted key log r' in if q.key == key && allowed then q.cost + rest else rest

-- The clock does not go back, from one time to another.
abbrev pub Ordered : ℕ → List Request → ℕ → Type 0
Ordered from [] until = from ≤ until
Ordered from (q ∷ log) until = (from ≤ q.now) × Ordered q.now log until

Ordered-le : (from until : ℕ) (log : List Request) → Ordered from log until → from ≤ until
Ordered-le from until [] h = h
Ordered-le from until (q ∷ log) h = omega (arith, h.0, Ordered-le q.now until log h.1)

-- What a stretch of time adds.
added : RateLimiterOptions → ℕ → ℕ → ℕ
added o from until = (until - from) * o.refill_per_second

added-split :
    (o : RateLimiterOptions) (from mid until : ℕ)
    → from ≤ mid
    → mid ≤ until
    → added o from mid + added o mid until ≡ added o from until
unfolding added
added-split o from mid until h k =
    let parts : until - from ≡ (mid - from) + (until - mid) = omega (arith, h, k) in
    rw parts (omega arith)

spend_lem :
    (o : RateLimiterOptions) (cost now : ℕ) (b : Bucket)
    → let (c, allowed) = spend cost (refill o now b) in
      (c.last_refill ≡ now)
      × (c.tokens + (if allowed then cost * 1000 else 0) ≤ b.tokens + added o b.last_refill now)
      × (c.tokens + (if allowed then cost * 1000 else 0) ≤ o.capacity * 1000)
unfolding spend refill added
spend_lem o cost now b = ground arith

-- What a call makes of the bucket `b` of its key.
record Consumed (q : Request) (r : RateLimiter) (b : Bucket) : Type 0 where
  next : Bucket
  stored : get q.key (consume q.key q.cost q.now r).0.buckets ≡ some next
  refilled : next.last_refill ≡ q.now
  paid :
      next.tokens + (if (consume q.key q.cost q.now r).1 then q.cost * 1000 else 0)
      ≤ b.tokens + added r.options b.last_refill q.now
  capped :
      next.tokens + (if (consume q.key q.cost q.now r).1 then q.cost * 1000 else 0)
      ≤ r.options.capacity * 1000

consume-Consumed :
    (q : Request) (r : RateLimiter) → Consumed q r (or_full r.options q.now (get q.key r.buckets))
unfolding consume
consume-Consumed q r =
    let b = or_full r.options q.now (get q.key r.buckets) in
    let step = spend_lem r.options q.cost q.now b in
    record {
      next = (spend q.cost (refill r.options q.now b)).0;
      stored = get-put_self q.key _ r.buckets;
      refilled = step.0;
      paid = step.1;
      capped = step.2;
    }

consume-options :
    (q : Request) (r : RateLimiter) → (consume q.key q.cost q.now r).0.options ≡ r.options
unfolding consume
consume-options q r = refl

consume-other :
    (q : Request) (r : RateLimiter) (key : String)
    → (q.key == key) ≡ false
    → get key (consume q.key q.cost q.now r).0.buckets ≡ get key r.buckets
unfolding consume
consume-other q r key other =
    let b = or_full r.options q.now (get q.key r.buckets) in
    ground (arith, get-put q.key key (spend q.cost (refill r.options q.now b)).0 r.buckets, other)

-- What is granted for a key out of one bucket, with the answers of the other keys in between.
granted_lem :
    (log : List Request) (r : RateLimiter) (key : String) (b : Bucket) (from until : ℕ)
    → get key r.buckets ≡ some b
    → b.last_refill ≤ from
    → Ordered from log until
    → 1000 * granted key log r ≤ b.tokens + added r.options b.last_refill until
unfolding granted
granted_lem [] r key b from until held past o = omega arith
granted_lem (q ∷ log) r key b from until held past o =
    let after = (consume q.key q.cost q.now r).0 in
    elim (Bool-cases (q.key == key)) [
      | inl here ↦
          let c = consume-Consumed q r in
          let same : or_full r.options q.now (get q.key r.buckets) ≡ b =
            ground (arith, eq_iff q.key key, here, held) in
          let rest =
            granted_lem log after key c.next q.now until
              (ground (arith, c.stored, eq_iff q.key key, here)) (omega (arith, c.refilled)) o.1 in
          ground (
            arith,
            here,
            rest,
            same,
            c.paid,
            c.refilled,
            consume-options q r,
            added-split r.options b.last_refill q.now until (omega (arith, past, o.0))
                (Ordered-le q.now until log o.1),
          )
      | inr other ↦
          let rest =
            granted_lem log after key b q.now until (consume-other q r key other ∙ held)
              (omega (arith, past, o.0)) o.1 in
          ground (arith, other, rest, consume-options q r)
    ]

-- Over any stretch of time on a clock that does not go back, the calls of `consume` grant a key no more
-- than the bucket's capacity and what is refilled in that time, whatever the limiter holds at the start,
-- whatever the other keys ask for in between and whatever costs are asked. In thousandths: a token
-- per second is one per millisecond.
pub granted-le :
    (log : List Request) (r : RateLimiter) (key : String) (from until : ℕ)
    → Ordered from log until
    → 1000 * granted key log r
      ≤ r.options.capacity * 1000 + (until - from) * r.options.refill_per_second
unfolding granted added
granted-le [] r key from until o = omega arith
granted-le (q ∷ log) r key from until o =
    let after = (consume q.key q.cost q.now r).0 in
    let between = added-split r.options from q.now until o.0 (Ordered-le q.now until log o.1) in
    elim (Bool-cases (q.key == key)) [
      | inl here ↦
          let c = consume-Consumed q r in
          let rest =
            granted_lem log after key c.next q.now until
              (ground (arith, c.stored, eq_iff q.key key, here)) (omega (arith, c.refilled)) o.1 in
          ground (arith, here, rest, c.capped, c.refilled, consume-options q r, between)
      | inr other ↦
          let rest = granted-le log after key q.now until o.1 in
          ground (arith, other, rest, consume-options q r, between)
    ]
