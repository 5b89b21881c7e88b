-- ===== src/Firewall/Lines.antt =====
-- `ruleLines` and `portArgs` of packages/backend/src/services/firewallService.ts: a config as the lines of a VM's two chains.
use virt_pilot.Common.{
  ℕ, ◌+◌, Bool, true, false, not, ◌&&◌, ◌||◌, Option, none, some, List, [], ◌∷◌, ◌++◌,
  if◌then◌else◌, ltb, String, truthy,
}
use virt_pilot.Firewall.Rules.{
  Direction, inbound, outbound, Protocol, icmp, Action, PortItem, port, range, FirewallRule,
  FirewallConfig, Validators, has_ports, has_items, is_allow,
}

pub data Target : Type 0 where
  accept_it drop_it return_it : Target

-- What a line looks at. The address is the source in the inbound chain, the destination in the outbound one.
pub record Fields : Type 0 where
  pub address : Option String
  pub protocol : Protocol
  pub ports : List PortItem
  pub icmp_type : Option String

pub data Match : Type 0 where
  anything : Match
  established : Match
  fields : Fields → Match

-- A line `-A <chain> …`.
pub record Line : Type 0 where
  pub chain : Direction
  pub what : Match
  pub target : Target

abbrev pub multiport_max_entries : ℕ
multiport_max_entries = 15

abbrev pub slots : List PortItem → ℕ
slots [] = 0
slots (port p ∷ ps) = 1 + slots ps
slots (range lo hi ∷ ps) = 2 + slots ps

-- The comma in the text.
abbrev pub is_several : List PortItem → Bool
is_several [] = false
is_several (p ∷ []) = false
is_several (p ∷ q ∷ ps) = true

-- `portArgs` does not throw.
unfoldable pub fits_multiport : List PortItem → Bool
fits_multiport ps = not (is_several ps && ltb multiport_max_entries (slots ps))

-- `if (rule.source) args.push('-s', validate(rule.source))`: none is the `throw`.
abbrev pub checked : (String → Option String) → Option String → Option (Option String)
checked check none = some none
checked check (some text) = elim (check text) [ none ↦ none | some t ↦ some (some t) ]

abbrev pub address_of : FirewallRule → Option String
address_of r = elim r.direction [ inbound ↦ truthy r.source | outbound ↦ truthy r.destination ]

-- The ports, where they apply.
abbrev pub ports_of : FirewallRule → List PortItem
ports_of r = if has_ports r.protocol then r.ports else []

abbrev pub icmp_of : FirewallRule → Option String
icmp_of r = elim r.protocol [ icmp ↦ truthy r.icmp_type | _ ↦ none ]

abbrev pub target_of : Action → Target
target_of a = if is_allow a then accept_it else drop_it

-- An address, an ICMP type and ports that have passed their validators, as a line.
abbrev pub line_from :
    FirewallRule → Option (Option String) → Option (Option String) → Bool → Option Line
line_from r (some address) (some icmp_type) true = some (record {
  chain = r.direction;
  what = fields (record {
    address = address;
    protocol = r.protocol;
    ports = ports_of r;
    icmp_type = icmp_type;
  });
  target = target_of r.action;
})
line_from r (some address) (some icmp_type) false = none
line_from r (some address) none ok = none
line_from r none icmp_type ok = none

unfoldable pub rule_line : Validators → FirewallRule → Option Line
rule_line v r =
    line_from r (checked v.address (address_of r)) (checked v.icmp_type (icmp_of r))
      (not (has_items (ports_of r)) || v.ports (ports_of r) && fits_multiport (ports_of r))

abbrev pub cons_line : Option Line → Option (List Line) → Option (List Line)
cons_line none ls = none
cons_line (some l) none = none
cons_line (some l) (some ls) = some (l ∷ ls)

unfoldable pub rule_args : Validators → List FirewallRule → Option (List Line)
rule_args v [] = some []
rule_args v (r ∷ rs) = cons_line (rule_line v r) (rule_args v rs)

abbrev pub default_target : Action → Target
default_target a = if is_allow a then return_it else drop_it

abbrev pub established_line : Direction → Bool → List Line
established_line d wanted =
    if wanted then record { chain = d; what = established; target = accept_it } ∷ [] else []

-- Without `xt_conntrack` the established lines are left out.
unfoldable pub established_lines : Bool → FirewallConfig → List Line
established_lines has_conntrack cfg =
    established_line inbound (has_conntrack && cfg.established_inbound)
    ++ established_line outbound (has_conntrack && cfg.established_outbound)

abbrev pub default_lines : FirewallConfig → List Line
default_lines cfg =
    record { chain = inbound; what = anything; target = default_target cfg.default_inbound }
    ∷ record { chain = outbound; what = anything; target = default_target cfg.default_outbound }
    ∷ []

abbrev pub around_rules : Bool → FirewallConfig → Option (List Line) → Option (List Line)
around_rules has_conntrack cfg none = none
around_rules has_conntrack cfg (some args) =
    some (established_lines has_conntrack cfg ++ (args ++ default_lines cfg))

unfoldable pub rule_lines : Validators → Bool → FirewallConfig → Option (List Line)
rule_lines v has_conntrack cfg = around_rules has_conntrack cfg (rule_args v cfg.rules)
