-- ===== src/Access.antt =====
-- Who may call the server: packages/backend/src/lib/rateLimit.ts and packages/backend/src/lib/tokenStore.ts.
pub mod RateLimit
pub mod TokenStore
pub mod Auth
pub mod Totp
