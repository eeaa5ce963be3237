-- ===== src/Relay.antt =====
-- backend/socket.io: the registry of connections (clients.ts), the slot counter (socketLimits.ts) and
-- the token bucket (rateLimiter.ts).
pub mod Clients
pub mod Slots
pub mod Limiter
