-- ===== src/Net/Pool.antt =====
-- The networks and the addresses given out on them: the stores of packages/backend/src/services/networkService.ts.
pub mod Store
pub mod Create
pub mod Delete
pub mod Unique
pub mod Made
pub mod Lookup
pub mod Reach
pub mod Twins
