-- ===== src/Net.antt =====
-- IPv4 addresses and networks in packages/backend/src/middleware/auth.ts and packages/backend/src/services/networkService.ts.
pub mod Bits
pub mod Cidr
pub mod Pool
