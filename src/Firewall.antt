-- ===== src/Firewall.antt =====
-- A VM's firewall with iptables: packages/backend/src/services/firewallService.ts.
pub mod Rules
pub mod Lines
pub mod Declared
pub mod Policy
pub mod Force
pub mod Rebuilt
pub mod Apply
