-- ===== src/Firewall/Rebuilt.antt =====
-- What a rebuild leaves in the kernel, however it ends.
use virt_pilot.Common.{
  ◌≡◌, refl, Bool, true, false, Option, none, some, List, [], ◌∷◌, String, ◌⊎◌, arith,
}
use virt_pilot.Firewall.Rules.{
  Direction, FirewallRule, FirewallConfig, Validators, has_no_rules, Action, allow, drop, is_allow,
}
use virt_pilot.Firewall.Lines.{Target, Line, rule_lines, default_lines}
use virt_pilot.Firewall.Declared.{Netfilter, chain_of, default_of, policy, by_default}
use virt_pilot.Firewall.Force.{Kernel, Rebuilt, unique}

-- A config that has no firewall: it lets everything go on and looks at nothing.
abbrev pub IsEmpty : FirewallConfig → Type 0
IsEmpty cfg =
    (cfg.rules ≡ [])
    × (cfg.default_inbound ≡ allow)
    × (cfg.default_outbound ≡ allow)
    × (cfg.established_inbound ≡ false)
    × (cfg.established_outbound ≡ false)

no_items : (rs : List FirewallRule) → elim rs [ [] ↦ true | r ∷ rest ↦ false ] ≡ true → rs ≡ []
no_items [] e = refl
no_items (r ∷ rs) e = absurd (ground (arith, e))

is_allowing : (a : Action) → is_allow a ≡ true → a ≡ allow
is_allowing allow e = refl
is_allowing drop e = absurd (ground (arith, e))

pub has_no_rules-IsEmpty : (cfg : FirewallConfig) → has_no_rules cfg ≡ true → IsEmpty cfg
unfolding has_no_rules
has_no_rules-IsEmpty cfg e = (
  no_items cfg.rules (ground (arith, e)),
  is_allowing cfg.default_inbound (ground (arith, e)),
  is_allowing cfg.default_outbound (ground (arith, e)),
  ground (arith, e),
  ground (arith, e),
)

pub IsEmpty-has_no_rules : (cfg : FirewallConfig) → IsEmpty cfg → has_no_rules cfg ≡ true
unfolding has_no_rules
IsEmpty-has_no_rules cfg (a, b, c, d, e) = rw (a, b, c, d, e) refl

module _ {ℓ} {P : Type ℓ} (net : Netfilter P) (v : Validators) (has_conntrack : Bool)
    (takes : List Line → Bool) (left : Option Kernel) where
  -- The chains of a kernel decide each packet as `decision` says.
  pub record Decides (k : Kernel) (decision : Direction → P → Target) : Type ℓ where
    pub lines : List Line
    pub there : k.chains ≡ some lines
    pub right : (d : Direction) (p : P) → net.verdict (chain_of d lines) p ≡ decision d p

  -- The lines of the config are made, and iptables refuses them.
  abbrev pub Refused : FirewallConfig → Type 0
  Refused cfg = (ls : List Line) × (rule_lines v has_conntrack cfg ≡ some ls) × (takes ls ≡ false)

  -- How a rebuild from `k` on the addresses `ips` may end.
  pub data Ends (ips : Option (List String)) (cfg : FirewallConfig) (k : Kernel)
      : Rebuilt → Type ℓ where
    -- It returns, for a config with no firewall, and all is cleared if every call of iptables works.
    clears :
        (l : List String)
        → ips ≡ some l
        → IsEmpty cfg
        → left ≡ none
        → Ends ips cfg k (record { returned = true; kernel = record { chains = none; jumps = [] } })
    leaves :
        (l : List String) (some_left : Kernel)
        → ips ≡ some l
        → IsEmpty cfg
        → left ≡ some some_left
        → Ends ips cfg k (record { returned = true; kernel = some_left })
    -- It returns, with the chains in force.
    enforces :
        (l : List String) (k' : Kernel)
        → ips ≡ some l
        → ¬ IsEmpty cfg
        → k'.jumps ≡ unique [] l
        → Decides k' (λ d p. policy net.packets v has_conntrack d cfg p)
        → Ends ips cfg k (record { returned = true; kernel = k' })
    -- It throws before it touches the kernel.
    cannot_start :
        (ips ≡ none) ⊎ (¬ IsEmpty cfg × (rule_lines v has_conntrack cfg ≡ none))
        → Ends ips cfg k (record { returned = false; kernel = k })
    -- It throws, and chains that were there stay.
    keeps :
        (ls : List Line)
        → ¬ IsEmpty cfg
        → Refused cfg
        → k.chains ≡ some ls
        → Ends ips cfg k (record { returned = false; kernel = k })
    -- It throws, and with no chains there the defaults are put in force if iptables takes them.
    falls_back :
        (l : List String) (k' : Kernel)
        → ips ≡ some l
        → ¬ IsEmpty cfg
        → Refused cfg
        → k.chains ≡ none
        → takes (default_lines cfg) ≡ true
        → k'.jumps ≡ unique [] l
        → Decides k' (λ d p. by_default (default_of d cfg))
        → Ends ips cfg k (record { returned = false; kernel = k' })
    stays_bare :
        ¬ IsEmpty cfg
        → Refused cfg
        → k.chains ≡ none
        → takes (default_lines cfg) ≡ false
        → Ends ips cfg k (record { returned = false; kernel = k })
