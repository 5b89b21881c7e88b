-- ===== src/Firewall/Rules.antt =====
-- The rules of a VM and `validateFirewallConfig`. A port list is what its commas and dashes make of it; the other
-- texts stay texts, and their validators are parameters that answer the text in use, or none for a `throw`.
use virt_pilot.Common.{
  ℕ, Bool, true, false, not, ◌&&◌, Option, none, some, List, [], ◌∷◌, String, truthy,
}

pub data Direction : Type 0 where
  inbound outbound : Direction

pub data Protocol : Type 0 where
  tcp udp icmp all : Protocol

pub data Action : Type 0 where
  allow drop : Action

pub data PortItem : Type 0 where
  port : ℕ → PortItem
  range : ℕ → ℕ → PortItem

-- `FirewallRule`; an empty list of ports is no `portRange`.
pub record FirewallRule : Type 0 where
  pub direction : Direction
  pub protocol : Protocol
  pub ports : List PortItem
  pub source : Option String
  pub destination : Option String
  pub icmp_type : Option String
  pub action : Action

-- `FirewallConfig`
pub record FirewallConfig : Type 0 where
  pub rules : List FirewallRule
  pub default_inbound : Action
  pub default_outbound : Action
  pub established_inbound : Bool
  pub established_outbound : Bool

-- `validateIpv4OrCidr`, `validateIcmpType` and `validatePortRange`.
pub record Validators : Type 0 where
  pub address : String → Option String
  pub icmp_type : String → Option String
  pub ports : List PortItem → Bool

abbrev pub same_direction : Direction → Direction → Bool
same_direction inbound inbound = true
same_direction inbound outbound = false
same_direction outbound inbound = false
same_direction outbound outbound = true

abbrev pub has_ports : Protocol → Bool
has_ports tcp = true
has_ports udp = true
has_ports icmp = false
has_ports all = false

abbrev pub is_allow : Action → Bool
is_allow allow = true
is_allow drop = false

abbrev pub has_items : List PortItem → Bool
has_items [] = false
has_items (p ∷ ps) = true

-- A field that is left out or empty is not looked at.
abbrev pub is_fine : (String → Option String) → Option String → Bool
is_fine check none = true
is_fine check (some text) = elim (check text) [ none ↦ false | some t ↦ true ]

unfoldable pub is_valid_rule : Validators → FirewallRule → Bool
is_valid_rule v r =
    not (has_items r.ports && not (has_ports r.protocol && v.ports r.ports))
    && is_fine v.icmp_type (truthy r.icmp_type)
    && is_fine v.address (truthy r.source)
    && is_fine v.address (truthy r.destination)

abbrev pub are_valid_rules : Validators → List FirewallRule → Bool
are_valid_rules v [] = true
are_valid_rules v (r ∷ rs) = is_valid_rule v r && are_valid_rules v rs

-- The directions, actions and defaults are valid by their types.
unfoldable pub validate_config : Validators → FirewallConfig → Bool
validate_config v cfg = are_valid_rules v cfg.rules

-- `hasNoRules`
unfoldable pub has_no_rules : FirewallConfig → Bool
has_no_rules cfg =
    elim cfg.rules [ [] ↦ true | r ∷ rs ↦ false ]
    && is_allow cfg.default_inbound
    && is_allow cfg.default_outbound
    && not cfg.established_inbound
    && not cfg.established_outbound
