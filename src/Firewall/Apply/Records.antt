-- ===== src/Firewall/Apply/Records.antt =====
-- What Apply's record says is in force, against what the kernel does.
use virt_pilot.Common.{◌≡◌, ◌⊎◌, Bool, Option, none, some, List, String}
use virt_pilot.Firewall.Rules.{FirewallConfig, Validators}
use virt_pilot.Firewall.Lines.{Line}
use virt_pilot.Firewall.Declared.{Netfilter, policy}
use virt_pilot.Firewall.Force.{Kernel, Rebuilt}
use virt_pilot.Firewall.Rebuilt.{IsEmpty, Decides}
use virt_pilot.Firewall.Apply.{FirewallFile, config, firewall_in_force}

module _ {ℓ} {P : Type ℓ} (net : Netfilter P) (v : Validators) (has_conntrack : Bool)
    (takes : List Line → Bool) (left : Option Kernel)
    (firewall_hash : FirewallConfig → String) where
  -- The file and the kernel say the same of a config: it has no firewall and none is said to be in force, or it is
  -- said to be in force and the chains decide by it.
  abbrev pub Agree : FirewallConfig → FirewallFile → Kernel → Type ℓ
  Agree cfg g k =
      (IsEmpty cfg × (firewall_in_force firewall_hash g ≡ none))
      ⊎ ((firewall_in_force firewall_hash g ≡ some (config cfg))
          × Decides net v has_conntrack takes left k
              (λ d p. policy net.packets v has_conntrack d cfg p))

  -- The fields that record what was applied, but for the hash.
  abbrev pub SameRecord : FirewallFile → FirewallFile → Type 0
  SameRecord f g =
      (g.applied ≡ f.applied) × (g.applied_raw ≡ f.applied_raw) × (g.applied_to ≡ f.applied_to)
