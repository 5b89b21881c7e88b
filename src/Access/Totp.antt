-- ===== src/Access/Totp.antt =====
-- The second factor: packages/backend/src/lib/totp.ts, packages/backend/src/lib/totpReplay.ts and the route `/verify-totp`
-- of packages/backend/src/routes/auth.ts. A text is the list of its code points.
pub mod Base32
pub mod RoundTrip
pub mod Secret
pub mod Code
pub mod Replay
pub mod Held
pub mod OneSession
