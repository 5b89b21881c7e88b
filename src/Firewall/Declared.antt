-- ===== src/Firewall/Declared.antt =====
-- The policy that a config of firewallService.ts declares, and how the kernel reads a line, as an interface.
use virt_pilot.Common.{
  ◌≡◌, Bool, true, false, ◌&&◌, Option, none, some, List, [], ◌∷◌, keep, ℕ, leb, ◌==◌, ◌||◌, truthy,
  if◌then◌else◌, String,
}
use virt_pilot.Firewall.Rules.{
  Direction, inbound, outbound, Protocol, tcp, udp, icmp, all, PortItem, port, range, FirewallRule,
  FirewallConfig, Validators, same_direction, Action, allow, drop,
}
use virt_pilot.Firewall.Lines.{
  Target, accept_it, drop_it, return_it, Match, anything, established, fields, Fields, Line,
}

-- What a packet is. `speaks` tells its protocol, `destination_port` is read of TCP and UDP.
pub record Packets {ℓ} (P : Type ℓ) : Type ℓ where
  pub source_in : String → P → Bool
  pub destination_in : String → P → Bool
  pub is_tcp : P → Bool
  pub is_udp : P → Bool
  pub is_icmp : P → Bool
  pub destination_port : P → ℕ
  pub has_icmp_type : String → P → Bool
  pub is_established : P → Bool

abbrev pub port_in : PortItem → ℕ → Bool
port_in (port q) n = n == q
port_in (range low high) n = leb low n && leb n high

abbrev pub some_port : List PortItem → ℕ → Bool
some_port [] n = false
some_port (i ∷ is) n = port_in i n || some_port is n

-- No ports are all ports.
abbrev pub ports_fit : List PortItem → ℕ → Bool
ports_fit [] n = true
ports_fit (i ∷ is) n = some_port (i ∷ is) n

abbrev pub given_fits {ℓ} : {P : Type ℓ} → (String → P → Bool) → Option String → P → Bool
given_fits test none p = true
given_fits test (some t) p = test t p

module _ {ℓ} {P : Type ℓ} (pk : Packets P) where
  abbrev pub speaks : Protocol → P → Bool
  speaks tcp p = pk.is_tcp p
  speaks udp p = pk.is_udp p
  speaks icmp p = pk.is_icmp p
  speaks all p = true

  -- `-s` in the chain of what comes in, `-d` in that of what goes out.
  abbrev pub side : Direction → String → P → Bool
  side inbound = pk.source_in
  side outbound = pk.destination_in

  -- `-s` or `-d`, `-p`, `--dport` or `--dports`, and `--icmp-type`: all that are given.
  abbrev pub fields_fit : Direction → Fields → P → Bool
  fields_fit d f p =
      given_fits (side d) f.address p
      && (speaks f.protocol p
          && (ports_fit f.ports (pk.destination_port p)
              && given_fits pk.has_icmp_type f.icmp_type p))

-- The kernel's chains: a packet meets the lines from the top, and the first that matches it has its target.
pub record Netfilter {ℓ} (P : Type ℓ) : Type ℓ where
  pub packets : Packets P
  pub matches : Direction → Match → P → Bool
  pub verdict : List Line → P → Target
  pub verdict-nil : (p : P) → verdict [] p ≡ return_it
  pub verdict-cons :
      (l : Line) (ls : List Line) (p : P)
      → verdict (l ∷ ls) p ≡ (if matches l.chain l.what p then l.target else verdict ls p)
  pub matches-anything : (d : Direction) (p : P) → matches d anything p ≡ true
  pub matches-established :
      (d : Direction) (p : P) → matches d established p ≡ packets.is_established p
  pub matches-fields :
      (d : Direction) (f : Fields) (p : P) → matches d (fields f) p ≡ fields_fit packets d f p

-- The chain of one direction after the lines have been loaded.
abbrev pub chain_of : Direction → List Line → List Line
chain_of d ls = keep (λ l. same_direction l.chain d) ls

abbrev pub default_of : Direction → FirewallConfig → Action
default_of inbound cfg = cfg.default_inbound
default_of outbound cfg = cfg.default_outbound

abbrev pub established_of : Direction → FirewallConfig → Bool
established_of inbound cfg = cfg.established_inbound
established_of outbound cfg = cfg.established_outbound

-- What a rule says of a packet that it fits.
abbrev pub declared : Action → Target
declared allow = accept_it
declared drop = drop_it

-- A packet that no rule fits goes on to the host's other rules, or is dropped.
abbrev pub by_default : Action → Target
by_default allow = return_it
by_default drop = drop_it

-- The policy that a config declares, read from the config alone.
module _ {ℓ} {P : Type ℓ} (pk : Packets P) (v : Validators) where
  -- A text that is given stands for what its validator makes of it.
  abbrev pub reads : (String → Option String) → (String → P → Bool) → Option String → P → Bool
  reads check test none p = true
  reads check test (some t) p = elim (check t) [ none ↦ false | some u ↦ test u p ]

  abbrev pub peer_fits : Direction → FirewallRule → P → Bool
  peer_fits inbound r p = reads v.address pk.source_in (truthy r.source) p
  peer_fits outbound r p = reads v.address pk.destination_in (truthy r.destination) p

  -- Ports count for TCP and UDP only, a type for ICMP only.
  abbrev pub protocol_fits : Protocol → FirewallRule → P → Bool
  protocol_fits tcp r p = pk.is_tcp p && ports_fit r.ports (pk.destination_port p)
  protocol_fits udp r p = pk.is_udp p && ports_fit r.ports (pk.destination_port p)
  protocol_fits icmp r p = pk.is_icmp p && reads v.icmp_type pk.has_icmp_type (truthy r.icmp_type) p
  protocol_fits all r p = true

  abbrev pub rule_fits : FirewallRule → P → Bool
  rule_fits r p = peer_fits r.direction r p && protocol_fits r.protocol r p

  -- The first rule of the direction that fits decides.
  abbrev pub decide_rules : Direction → Target → List FirewallRule → P → Target
  decide_rules d otherwise [] p = otherwise
  decide_rules d otherwise (r ∷ rs) p =
      if same_direction r.direction d && rule_fits r p
      then declared r.action
      else decide_rules d otherwise rs p

  abbrev pub policy : Bool → Direction → FirewallConfig → P → Target
  policy has_conntrack d cfg p =
      if has_conntrack && established_of d cfg && pk.is_established p
      then accept_it
      else decide_rules d (by_default (default_of d cfg)) cfg.rules p
