-- ===== src/Tests.antt =====
-- Runs of the theorems on small inputs.
mod BackupTests
mod ConsoleTests
mod VxlanTests
mod ForwardTests
mod AccessTests
mod AuthTests
mod NetTests
mod TotpTests
mod PoolTests
mod FirewallTests
mod ScheduleTests
