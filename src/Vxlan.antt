-- ===== src/Vxlan.antt =====
-- packages/backend/src/lib/vxlan.ts: the IDs, limits and tunnel plans of VXLANs.
pub mod Limits
pub mod Plan
