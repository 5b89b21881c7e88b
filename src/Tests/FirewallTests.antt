-- ===== src/Tests/FirewallTests.antt =====
-- A VM that takes in SSH and drops what else comes in, with packets that are new or not.
use virt_pilot.Common.{
  String, ◌≡◌, refl, Bool, true, false, Option, none, some, List, [], ◌∷◌, if◌then◌else◌, truthy,
}
use virt_pilot.Firewall.Rules.{
  inbound, tcp, allow, drop, port, Direction, FirewallRule, FirewallConfig, Validators,
}
use virt_pilot.Firewall.Lines.{
  Target, return_it, Match, anything, established, fields, Line, rule_line, rule_args, rule_lines,
  established_lines, fits_multiport,
}
use virt_pilot.Firewall.Declared.{Packets, Netfilter, fields_fit, chain_of, policy}
use virt_pilot.Firewall.Policy.{rule_lines-policy}
use virt_pilot.Firewall.Force.{Kernel}
use virt_pilot.Firewall.Apply.{FirewallFile, unknown, Troubles, Host, Applied, apply_firewall_rules}

-- Every packet is of TCP to port 22, and is known by whether it belongs to a connection.
abbrev packets : Packets Bool
packets = record {
  source_in = λ t p. true;
  destination_in = λ t p. true;
  is_tcp = λ p. true;
  is_udp = λ p. false;
  is_icmp = λ p. false;
  destination_port = λ p. 22;
  has_icmp_type = λ t p. false;
  is_established = λ p. p;
}

abbrev matches : Direction → Match → Bool → Bool
matches d anything p = true
matches d established p = p
matches d (fields f) p = fields_fit packets d f p

abbrev verdict : List Line → Bool → Target
verdict [] p = return_it
verdict (l ∷ ls) p = if matches l.chain l.what p then l.target else verdict ls p

abbrev net : Netfilter Bool
net = record {
  packets = packets;
  matches = matches;
  verdict = verdict;
  verdict-nil = λ p. refl;
  verdict-cons = λ l ls p. refl;
  matches-anything = λ d p. refl;
  matches-established = λ d p. refl;
  matches-fields = λ d f p. refl;
}

abbrev lenient : Validators
lenient = record { address = λ t. some t; icmp_type = λ t. some t; ports = λ ps. true }

abbrev ssh : FirewallRule
ssh = record {
  direction = inbound;
  protocol = tcp;
  ports = port 22 ∷ [];
  source = none;
  destination = none;
  icmp_type = none;
  action = allow;
}

abbrev config : FirewallConfig
config = record {
  rules = ssh ∷ [];
  default_inbound = drop;
  default_outbound = allow;
  established_inbound = true;
  established_outbound = false;
}

abbrev lines_of : Option (List Line) → List Line
lines_of none = []
lines_of (some ls) = ls

loads : rule_lines lenient true config ≡ some (lines_of (rule_lines lenient true config))
unfolding rule_lines rule_args rule_line established_lines fits_multiport truthy
loads = refl

rule_lines-policy_example :
    net.verdict (chain_of inbound (lines_of (rule_lines lenient true config))) false
    ≡ policy net.packets lenient true inbound config false
rule_lines-policy_example =
    rule_lines-policy net lenient true inbound config (lines_of (rule_lines lenient true config))
      false loads

abbrev refuses_all : List Line → Bool
refuses_all ls = false

abbrev bare : Kernel
bare = record { chains = none; jumps = [] }

abbrev takes_all : List Line → Bool
takes_all ls = true

abbrev no_hash : FirewallConfig → String
no_hash cfg = "h"

abbrev saved_file : FirewallFile
saved_file = record {
  saved = config;
  applied_hash = unknown;
  applied = none;
  applied_raw = none;
  applied_to = [];
}

abbrev host : Host
host = record { file = some saved_file; kernel = bare }

-- The boot files cannot be written.
abbrev troubles : Troubles
troubles = record {
  marking = false;
  between = false;
  recording = false;
  booting = true;
  jumps_read = true;
}

abbrev all_valid : List String → Option (List String)
all_valid ips = some ips

abbrev application : Applied
application =
    apply_firewall_rules no_hash lenient true takes_all none all_valid troubles ("10.0.0.5" ∷ [])
      config host
