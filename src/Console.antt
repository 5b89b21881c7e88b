-- ===== src/Console.antt =====
-- packages/backend/src/lib/serialConsole.ts: the pure pieces of the shared serial console.
pub mod Backlog
