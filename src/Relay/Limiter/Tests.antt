-- ===== src/Relay/Limiter/Tests.antt =====
-- Calls of backend/socket.io/rateLimiter.ts on a concrete bucket.
use k3ncrypt.Base.{◌≡◌, ◌≤◌, ◌+◌, ◌*◌, ◌-◌, refl, string_eq, List, [], ◌∷◌, arith}
use k3ncrypt.Base.Dict.{get, put, delete}
use k3ncrypt.Relay.Limiter.{RateLimiter, refill, spend, consume}
use k3ncrypt.Relay.Limiter.Rate.{Request, granted, granted-le}

limits : Unit {0}
unfolding get put delete refill spend consume granted
limits = tt

abbrev two_per_burst : RateLimiter
two_per_burst = record { options = record { capacity = 2; refill_per_second = 1 }; buckets = [] }

abbrev asks : List Request
asks =
    record { key = "a"; cost = 1; now = 1000 }
    ∷ record { key = "a"; cost = 1; now = 1000 }
    ∷ record { key = "a"; cost = 1; now = 1999 }
    ∷ record { key = "b"; cost = 2; now = 1999 }
    ∷ record { key = "a"; cost = 1; now = 2000 }
    ∷ []

granted_test : granted "a" asks two_per_burst ≡ 3
unfolding limits
granted_test = refl

-- A bucket that was emptied, and then idle for long.
abbrev idle : RateLimiter
idle = record two_per_burst { buckets = ("a", record { tokens = 0; last_refill = 1000 }) ∷ [] }

abbrev burst : List Request
burst =
    record { key = "a"; cost = 1; now = 900_000 }
    ∷ record { key = "a"; cost = 1; now = 900_000 }
    ∷ record { key = "a"; cost = 1; now = 900_500 }
    ∷ []

idle_test : granted "a" burst idle ≡ 2
unfolding limits
idle_test = refl

granted-le_example : 1000 * granted "a" burst idle ≤ 2 * 1000 + (900_500 - 900_000) * 1
granted-le_example = granted-le burst idle "a" 900_000 900_500 (omega arith)
