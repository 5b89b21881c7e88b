-- ===== src/Firewall/Force.antt =====
-- `rebuildFirewall` of firewallService.ts, on the routed side: what it makes of a VM's chains and jumps.
use virt_pilot.Common.{
  Bool, true, false, Option, none, some, List, [], ◌∷◌, if◌then◌else◌, String, includes,
}
use virt_pilot.Firewall.Rules.{FirewallConfig, Validators, has_no_rules}
use virt_pilot.Firewall.Lines.{Line, rule_lines}

-- The VM's two chains, none if they are not there, and the addresses whose jumps lead to them.
pub record Kernel : Type 0 where
  pub chains : Option (List Line)
  pub jumps : List String

-- `[...new Set(…)]`
abbrev pub unique : List String → List String → List String
unique seen [] = []
unique seen (x ∷ xs) = if includes seen x then unique seen xs else x ∷ unique (x ∷ seen) xs

-- `lines.slice(-2)`
abbrev pub last_two : List Line → List Line
last_two [] = []
last_two (a ∷ []) = a ∷ []
last_two (a ∷ b ∷ []) = a ∷ b ∷ []
last_two (a ∷ b ∷ c ∷ ls) = last_two (b ∷ c ∷ ls)

pub record Rebuilt : Type 0 where
  pub returned : Bool
  pub kernel : Kernel

abbrev pub is_there : Option (List Line) → Bool
is_there none = false
is_there (some ls) = true

-- `removeForwardJumps` and `destroyChains`, which go on where a call of iptables fails: `left` is then what is left
-- of the jumps and chains, and none where every call works.
abbrev pub swept : Option Kernel → Kernel
swept none = record { chains = none; jumps = [] }
swept (some left) = left

-- `takes` says of lines whether `iptables-restore` takes them, all of them in one step.
module _ (v : Validators) (has_conntrack : Bool) (takes : List Line → Bool) where
  abbrev pub fall_back : List String → List Line → Kernel → Kernel
  fall_back ips defaults k =
      if takes defaults then record { chains = some defaults; jumps = ips } else k

  abbrev pub restore : List String → Kernel → Option (List Line) → Rebuilt
  restore ips k none = record { returned = false; kernel = k }
  restore ips k (some lines) =
      if takes lines
      then record { returned = true; kernel = record { chains = some lines; jumps = ips } }
      else record {
        returned = false;
        kernel = if is_there k.chains then k else fall_back ips (last_two lines) k;
      }

  -- An address that `validateIpv4` throws on ends it at once.
  unfoldable pub rebuild_firewall :
      Option Kernel → Option (List String) → FirewallConfig → Kernel → Rebuilt
  rebuild_firewall left none cfg k = record { returned = false; kernel = k }
  rebuild_firewall left (some ips) cfg k =
      if has_no_rules cfg
      then record { returned = true; kernel = swept left }
      else restore (unique [] ips) k (rule_lines v has_conntrack cfg)
