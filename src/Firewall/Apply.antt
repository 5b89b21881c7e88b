-- ===== src/Firewall/Apply.antt =====
-- `applyFirewallRules` and `firewallInForce` of firewallService.ts, with the VM's file. The bridge side and the
-- fingerprint of the chains are not modelled, but for where they throw. A config's hash is a parameter.
pub mod Records
use virt_pilot.Common.{
  Bool, true, false, Option, none, some, List, [], ◌∷◌, ◌++◌, if◌then◌else◌, String, same, not,
  ◌||◌,
}
use virt_pilot.Firewall.Rules.{FirewallConfig, Validators, has_no_rules}
use virt_pilot.Firewall.Lines.{Line}
use virt_pilot.Firewall.Force.{Kernel, Rebuilt, unique, rebuild_firewall}

-- `appliedHash`: undefined, null, or a hash.
pub data AppliedHash : Type 0 where
  unknown applying : AppliedHash
  hash : String → AppliedHash

pub record FirewallFile : Type 0 where
  pub saved : FirewallConfig
  pub applied_hash : AppliedHash
  pub applied : Option FirewallConfig
  pub applied_raw : Option (List Line)
  pub applied_to : List String

pub data InForce : Type 0 where
  config : FirewallConfig → InForce
  raw : List Line → InForce

abbrev pub force_unless_empty : FirewallConfig → Option InForce
force_unless_empty cfg = if has_no_rules cfg then none else some (config cfg)

-- `updateFirewallFile` changes a file that is there.
abbrev pub update_file : (FirewallFile → FirewallFile) → Option FirewallFile → Option FirewallFile
update_file change none = none
update_file change (some f) = some (change f)

abbrev pub mark_applying : FirewallFile → FirewallFile
mark_applying f = record f { applied_hash = applying }

-- Which steps of an Apply throw: the write that marks it as begun, one between the rebuild and the write of what was
-- applied, that write, and `writeBootFiles`. `jumps_read` is whether FORWARD could be read.
pub record Troubles : Type 0 where
  pub marking : Bool
  pub between : Bool
  pub recording : Bool
  pub booting : Bool
  pub jumps_read : Bool

-- The file is none where it is not there or cannot be read: `updateFirewallFile` then writes nothing.
pub record Host : Type 0 where
  pub file : Option FirewallFile
  pub kernel : Kernel

pub record Applied : Type 0 where
  pub returned : Bool
  pub host : Host

-- What it is on now stays: the addresses of its jumps join those that Apply read.
abbrev pub addresses_for : FirewallConfig → List String → Bool → Kernel → List String
addresses_for cfg vm_ips jumps_read k =
    if has_no_rules cfg then [] else unique [] (vm_ips ++ (if jumps_read then k.jumps else []))

module _ (firewall_hash : FirewallConfig → String) where
  abbrev pub is_hash_of : AppliedHash → FirewallConfig → Bool
  is_hash_of unknown cfg = false
  is_hash_of applying cfg = false
  is_hash_of (hash h) cfg = same h (firewall_hash cfg)

  abbrev pub force_from : FirewallFile → Option FirewallConfig → Option (List Line) → Option InForce
  force_from f (some cfg) lines = force_unless_empty cfg
  force_from f none (some lines) = some (raw lines)
  force_from f none none =
      if is_hash_of f.applied_hash f.saved then force_unless_empty f.saved else none

  unfoldable pub firewall_in_force : FirewallFile → Option InForce
  firewall_in_force f = force_from f f.applied f.applied_raw

  abbrev pub mark_applied : FirewallConfig → List String → FirewallFile → FirewallFile
  mark_applied cfg ips f = record f {
    applied_hash = hash (firewall_hash cfg);
    applied = some cfg;
    applied_raw = none;
    applied_to = ips;
  }

  abbrev pub after_rebuild :
      Troubles → FirewallConfig → List String → Option FirewallFile → Rebuilt → Applied
  after_rebuild t cfg ips file r =
      if not r.returned || t.between || t.recording
      then record { returned = false; host = record { file = file; kernel = r.kernel } }
      else record {
        returned = not t.booting;
        host = record { file = update_file (mark_applied cfg ips) file; kernel = r.kernel };
      }

  -- `validate` is `validateIpv4` over the addresses.
  unfoldable pub apply_firewall_rules :
      Validators
      → Bool
      → (List Line → Bool)
      → Option Kernel
      → (List String → Option (List String))
      → Troubles
      → List String
      → FirewallConfig
      → Host
      → Applied
  apply_firewall_rules v has_conntrack takes left validate t vm_ips cfg h =
      let ips = addresses_for cfg vm_ips t.jumps_read h.kernel in
      if t.marking
      then record { returned = false; host = h }
      else after_rebuild t cfg ips (update_file mark_applying h.file)
          (rebuild_firewall v has_conntrack takes left (validate ips) cfg h.kernel)
