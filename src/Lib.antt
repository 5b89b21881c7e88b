-- ===== src/Lib.antt =====
-- virtPilot: a web panel for libvirt hosts. packages/backend is an Express server in TypeScript
-- that keeps its state in JSON files, SQLite and the directories of its backups, and works the
-- host through virsh, ip, bridge and iptables; packages/frontend is a React application that calls
-- it. This library models the server's own decisions.
--
-- Backup models packages/backend/src/services/backupService.ts: Backup.Types its records,
-- Backup.Chain the listing with buildBackupEntries and walkChain, Backup.Scan scanManifests with
-- the sweep of abandoned directories and reconcileCheckpoints, Backup.Retention applyRetention,
-- Backup.Delete deleteBackup with collectDescendants, Backup.Plan assessIncrementalReadiness and
-- the choice between a full and an incremental backup in _createBackupInner, and Backup.Disk the
-- directories and checkpoints they act on, with the names of libvirtBackupService.ts. The listing
-- feeds the other four: they see the entries that the scan could read, newest first. A time is
-- milliseconds since the epoch. What libvirt answers to a deletion is a function of the
-- checkpoint's name.
--
-- Console models the class Backlog of packages/backend/src/lib/serialConsole.ts;
-- Console.Backlog.History and Console.Backlog.Line compare it with everything ever appended.
--
-- Vxlan models packages/backend/src/lib/vxlan.ts: Vxlan.Limits the IDs and MTUs, Vxlan.Plan
-- planTunnel. The kernel is a parameter, the record Kernel of Vxlan.Plan.Stages, with what each
-- command of ip and bridge does to a device.
--
-- Forwards models packages/backend/src/services/portForwardService.ts: Forwards.Reserve
-- ensureReservation, Forwards the store and its operations, Forwards.Valid the invariant,
-- Forwards.Create and Forwards.Laws that each operation keeps it, Forwards.Reach the sequences of
-- operations, which oneChangeAtATime runs one after another, and Forwards.Failed what a failed
-- create leaves. Netfilter is a parameter, the record Firewall, whose removals may leave rules;
-- what the network, libvirt and the disk answer to a call is an argument of it.
--
-- Access models packages/backend/src/lib/rateLimit.ts, a limiter with its buckets by key and its
-- clean-up, and packages/backend/src/lib/tokenStore.ts, the revocations in memory and in their
-- table. Whether the database opens and a statement succeeds is an argument of each use, and
-- SHA-256 a parameter. Access.Auth models packages/backend/src/middleware/auth.ts, whose jwt
-- library and settings file are arguments, and Access.Auth.Upgrade the handler of upgrade in
-- packages/backend/src/index.ts.
--
-- Access.Totp models packages/backend/src/lib/totp.ts and packages/backend/src/lib/totpReplay.ts
-- with the route /verify-totp of packages/backend/src/routes/auth.ts: Base32 the coding of a
-- secret, Code the codes and the check of a token, Replay the map of used codes and the route. The
-- HMAC and toUpperCase are parameters.
--
-- Backup.Schedule models the schedules of packages/backend/src/services/backupService.ts: Next
-- computeNextRunAt, Store the file and the operations under its lock, Put the route of
-- packages/backend/src/routes/backups.ts, Run the ticks and runs of
-- packages/backend/src/services/backupSchedulerService.ts, and Reach their steps in any order.
-- Local time has no shifts, and the calendar is a parameter, the record Calendar.
--
-- Firewall models packages/backend/src/services/firewallService.ts: Rules the config of a VM,
-- Lines the lines that it becomes, and Declared the policy that the config declares and how the
-- kernel reads a line, and Policy that the lines carry it out; Force a rebuild of the chains and
-- Rebuilt how it may end; Apply the VM's file with what was applied. The kernel's chains are a
-- parameter, the record Netfilter of Firewall.Declared.
--
-- Net models the address arithmetic of packages/backend/src/services/networkService.ts and of the
-- middleware: Net.Bits the operators & and | on 32-bit words, Net.Cidr the networks,
-- Net.Cidr.Sizes and Net.Cidr.Range what they hold. Net.Pool models the networks and the addresses
-- given out on them: Store the rows and allocateSpecificIp, Create createNatNetwork, Delete
-- deleteNetwork with the holds, and Reach the operations in any order. What a deletion does to
-- bridges is not modelled.
--
-- Common holds the shared tests, lists and texts, and Tests runs the theorems on small inputs.
--
-- Loops that the source bounds by nothing run on fuel. The walk up a chain takes one round for
-- each manifest and one more, since it stops at an id it has seen; the retention loop one pass for
-- each backup and one more, since a pass that goes on has removed one; the search for descendants
-- two rounds more than there are backups, since each is pushed once; trimming one round for each
-- chunk and one more; writing out a byte's letters one round for each bit. The theorems below rest
-- on the proof that this is enough.
--
-- Not modelled: copying, restoring and verifying a backup, the console's sessions, bridge and
-- VXLAN networks, the firewall at the tap with its marks, the repair of single jumps and the check
-- that puts rules back after a restart, devices and storage. Routes, sockets, SQL, generated XML
-- and the frontend are input and output.
pub mod Common
pub mod Backup
pub mod Console
pub mod Vxlan
pub mod Forwards
pub mod Net
pub mod Access
pub mod Firewall
pub mod Tests
