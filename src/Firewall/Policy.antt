-- ===== src/Firewall/Policy.antt =====
-- What the lines of a config mean: the kernel decides by them as the config declares.
use virt_pilot.Common.{
  ◌≡◌, refl, sym, ap, ◌∙◌, inl, inr, Bool, true, false, ◌&&◌, Option, none, some, List, [], ◌∷◌,
  ◌++◌, truthy, if◌then◌else◌, String, arith, Bool-cases,
}
use virt_pilot.Firewall.Rules.{
  Direction, inbound, outbound, Protocol, tcp, udp, icmp, all, FirewallRule, FirewallConfig,
  Validators, same_direction, Action, allow, drop, has_ports,
}
use virt_pilot.Firewall.Lines.{
  Target, accept_it, anything, established, Line, rule_line, target_of, checked, address_of,
  icmp_of, ports_of, rule_args, line_from, cons_line, default_target, established_line,
  established_lines, default_lines, around_rules, rule_lines,
}
use virt_pilot.Firewall.Declared.{
  Packets, Netfilter, given_fits, ports_fit, speaks, side, chain_of, default_of, established_of,
  reads, peer_fits, protocol_fits, rule_fits, declared, by_default, decide_rules, policy,
}

line_from-chain :
    (r : FirewallRule) (a i : Option (Option String)) (ok : Bool) (l : Line)
    → line_from r a i ok ≡ some l
    → l.chain ≡ r.direction
line_from-chain r (some a) (some i) true l e =
    ap (λ o. elim o [ none ↦ r.direction | some x ↦ x.chain ]) (sym e)
line_from-chain r (some a) (some i) false l e = absurd (ground (arith, e))
line_from-chain r (some a) none ok l e = absurd (ground (arith, e))
line_from-chain r none i ok l e = absurd (ground (arith, e))

rule_line-chain :
    (v : Validators) (r : FirewallRule) (l : Line) → rule_line v r ≡ some l → l.chain ≡ r.direction
unfolding rule_line
rule_line-chain v r l e = line_from-chain r _ _ _ l e

cons_line-some :
    (o : Option Line) (ls : Option (List Line)) (out : List Line)
    → cons_line o ls ≡ some out
    → (l : Line) × (rest : List Line) × (o ≡ some l) × (ls ≡ some rest) × (out ≡ l ∷ rest)
cons_line-some none ls out e = absurd (ground (arith, e))
cons_line-some (some l) none out e = absurd (ground (arith, e))
cons_line-some (some l) (some rest) out e =
    (l, rest, refl, refl, ap (λ o. elim o [ none ↦ [] | some x ↦ x ]) (sym e))

abbrev pick : Direction → Bool → Bool → Bool
pick inbound a b = a
pick outbound a b = b

pick_lem :
    (d : Direction) (ct : Bool) (cfg : FirewallConfig) (m : Bool) (x y : Target)
    → (if pick d (ct && cfg.established_inbound) (ct && cfg.established_outbound) && m
        then x
        else y)
      ≡ (if ct && established_of d cfg && m then x else y)
pick_lem inbound true cfg m x y = refl
pick_lem inbound false cfg m x y = refl
pick_lem outbound true cfg m x y = refl
pick_lem outbound false cfg m x y = refl

pub around_rules-some :
    (ct : Bool) (cfg : FirewallConfig) (o : Option (List Line)) (ls : List Line)
    → around_rules ct cfg o ≡ some ls
    → (args : List Line) × (o ≡ some args)
      × (established_lines ct cfg ++ (args ++ default_lines cfg) ≡ ls)
around_rules-some ct cfg none ls e = absurd (ground (arith, e))
around_rules-some ct cfg (some args) ls e =
    (args, refl, ap (λ o. elim o [ none ↦ [] | some x ↦ x ]) e)

-- A line that was made of a rule fits the packets that the rule fits, and has the target it declares.
declared_lem : (a : Action) → target_of a ≡ declared a
declared_lem allow = refl
declared_lem drop = refl

by_default_lem : (a : Action) → default_target a ≡ by_default a
by_default_lem allow = refl
by_default_lem drop = refl

module _ {ℓ} {P : Type ℓ} (pk : Packets P) (v : Validators) (p : P) where
  given_fits-checked :
      (check : String → Option String) (test : String → P → Bool) (o a : Option String)
      → checked check o ≡ some a
      → given_fits test a p ≡ reads pk v check test o p
  given_fits-checked check test none none e = refl
  given_fits-checked check test none (some t) e = absurd (ground (arith, e))
  given_fits-checked check test (some t) a e = by_check (check t) e
    where
      by_check :
          (c : Option String)
          → elim c [ none ↦ none | some u ↦ some (some u) ] ≡ some a
          → given_fits test a p ≡ elim c [ none ↦ false | some u ↦ test u p ]
      by_check none h = absurd (ground (arith, h))
      by_check (some u) h = ap (λ o. elim o [ none ↦ true | some x ↦ given_fits test x p ]) (sym h)

  side-checked :
      (d : Direction) (r : FirewallRule) (a : Option String)
      → checked v.address (elim d [ inbound ↦ truthy r.source | outbound ↦ truthy r.destination ])
        ≡ some a
      → given_fits (side pk d) a p ≡ peer_fits pk v d r p
  side-checked inbound r a e = given_fits-checked v.address pk.source_in (truthy r.source) a e
  side-checked outbound r a e =
      given_fits-checked v.address pk.destination_in (truthy r.destination) a e

  protocol-checked :
      (q : Protocol) (r : FirewallRule) (i : Option String)
      → checked v.icmp_type (elim q [ icmp ↦ truthy r.icmp_type | _ ↦ none ]) ≡ some i
      → (speaks pk q p
          && (ports_fit (if has_ports q then r.ports else []) (pk.destination_port p)
              && given_fits pk.has_icmp_type i p))
        ≡ protocol_fits pk v q r p
  protocol-checked tcp r i e =
      let given = given_fits-checked v.icmp_type pk.has_icmp_type none i e in ground (arith, given)
  protocol-checked udp r i e =
      let given = given_fits-checked v.icmp_type pk.has_icmp_type none i e in ground (arith, given)
  protocol-checked icmp r i e =
      ap (λ b. pk.is_icmp p && b)
        (given_fits-checked v.icmp_type pk.has_icmp_type (truthy r.icmp_type) i e)
  protocol-checked all r i e = given_fits-checked v.icmp_type pk.has_icmp_type none i e

module _ {ℓ} {P : Type ℓ} (net : Netfilter P) where
  line_from-fits :
      (v : Validators) (p : P) (r : FirewallRule) (a i : Option (Option String)) (ok : Bool)
      (l : Line)
      → checked v.address (address_of r) ≡ a
      → checked v.icmp_type (icmp_of r) ≡ i
      → line_from r a i ok ≡ some l
      → (net.matches r.direction l.what p ≡ rule_fits net.packets v r p)
        × (l.target ≡ declared r.action)
  line_from-fits v p r (some a) (some i) true l ea ei e = (
    ap (λ o. net.matches r.direction (elim o [ none ↦ anything | some x ↦ x.what ]) p) (sym e)
        ∙ net.matches-fields r.direction _ p
        ∙ ap
            (λ b.
              b
              && (speaks net.packets r.protocol p
                  && (ports_fit (ports_of r) (net.packets.destination_port p)
                      && given_fits net.packets.has_icmp_type i p)))
            (side-checked net.packets v p r.direction r a ea)
        ∙ ap (λ b. peer_fits net.packets v r.direction r p && b)
            (protocol-checked net.packets v p r.protocol r i ei),
    ap (λ o. elim o [ none ↦ target_of r.action | some x ↦ x.target ]) (sym e)
        ∙ declared_lem r.action,
  )
  line_from-fits v p r (some a) (some i) false l ea ei e = absurd (ground (arith, e))
  line_from-fits v p r (some a) none ok l ea ei e = absurd (ground (arith, e))
  line_from-fits v p r none i ok l ea ei e = absurd (ground (arith, e))

  rule_line-fits :
      (v : Validators) (p : P) (r : FirewallRule) (l : Line)
      → rule_line v r ≡ some l
      → (net.matches r.direction l.what p ≡ rule_fits net.packets v r p)
        × (l.target ≡ declared r.action)
  unfolding rule_line
  rule_line-fits v p r l e = line_from-fits v p r _ _ _ l refl refl e

  -- A line in front of a chain.
  verdict-step :
      (d : Direction) (l : Line) (ls : List Line) (p : P)
      → net.verdict (chain_of d (l ∷ ls)) p ≡ (
          if same_direction l.chain d && net.matches l.chain l.what p
          then l.target
          else net.verdict (chain_of d ls) p)
  verdict-step d l ls p = elim (Bool-cases (same_direction l.chain d)) [
    | inl e ↦ rw e (net.verdict-cons l (chain_of d ls) p)
    | inr e ↦ rw e refl
  ]

  rules-policy :
      (v : Validators) (d : Direction) (tail : List Line) (p : P) (rs : List FirewallRule)
      (args : List Line)
      → rule_args v rs ≡ some args
      → net.verdict (chain_of d (args ++ tail)) p
        ≡ decide_rules net.packets v d (net.verdict (chain_of d tail) p) rs p
  unfolding rule_args
  rules-policy v d tail p [] args e =
      ap (λ o. net.verdict (chain_of d (elim o [ none ↦ [] | some x ↦ x ] ++ tail)) p) (sym e)
  rules-policy v d tail p (r ∷ rs) args e =
      let (l, rest, made, later, whole) = cons_line-some (rule_line v r) (rule_args v rs) args e in
      let ih = rules-policy v d tail p rs rest later in
      let (fits, target) = rule_line-fits v p r l made in
      ap (λ x. net.verdict (chain_of d (x ++ tail)) p) whole
      ∙ verdict-step d l (rest ++ tail) p
      ∙ ap
          (λ x.
            if same_direction x d && net.matches x l.what p
            then l.target
            else net.verdict (chain_of d (rest ++ tail)) p)
          (rule_line-chain v r l made)
      ∙ ap
          (λ b.
            if same_direction r.direction d && b
            then l.target
            else net.verdict (chain_of d (rest ++ tail)) p)
          fits
      ∙ ap
          (λ t.
            if same_direction r.direction d && rule_fits net.packets v r p
            then t
            else net.verdict (chain_of d (rest ++ tail)) p)
          target
      ∙ ap
          (λ x.
            if same_direction r.direction d && rule_fits net.packets v r p
            then declared r.action
            else x)
          ih

  first_line :
      (d : Direction) (t : Target) (ls : List Line) (p : P)
      → net.verdict (record { chain = d; what = established; target = t } ∷ ls) p
        ≡ (if net.packets.is_established p then t else net.verdict ls p)
  first_line d t ls p =
      net.verdict-cons _ ls p
      ∙ ap (λ b. if b then t else net.verdict ls p) (net.matches-established d p)

  established_chain :
      (d : Direction) (a b : Bool) (ls : List Line) (p : P)
      → net.verdict (chain_of d (established_line inbound a ++ established_line outbound b ++ ls)) p
        ≡ (if pick d a b && net.packets.is_established p
            then accept_it
            else net.verdict (chain_of d ls) p)
  established_chain inbound true true ls p = first_line inbound accept_it (chain_of inbound ls) p
  established_chain inbound true false ls p = first_line inbound accept_it (chain_of inbound ls) p
  established_chain inbound false true ls p = refl
  established_chain inbound false false ls p = refl
  established_chain outbound true true ls p = first_line outbound accept_it (chain_of outbound ls) p
  established_chain outbound true false ls p = refl
  established_chain outbound false true ls p =
      first_line outbound accept_it (chain_of outbound ls) p
  established_chain outbound false false ls p = refl

  last_line :
      (d : Direction) (a : Action) (p : P)
      → net.verdict (record { chain = d; what = anything; target = default_target a } ∷ []) p
        ≡ by_default a
  last_line d a p =
      net.verdict-cons _ [] p
      ∙ ap (λ b. if b then default_target a else net.verdict [] p) (net.matches-anything d p)
      ∙ by_default_lem a

  pub default_chain :
      (d : Direction) (cfg : FirewallConfig) (p : P)
      → net.verdict (chain_of d (default_lines cfg)) p ≡ by_default (default_of d cfg)
  default_chain inbound cfg p = last_line inbound cfg.default_inbound p
  default_chain outbound cfg p = last_line outbound cfg.default_outbound p

  -- The loaded lines decide every packet as the config declares: an established connection is accepted where that
  -- is asked for and the host has conntrack; then the first rule of the direction whose address, protocol, ports and
  -- ICMP type fit the packet accepts or drops it; then the default lets it go on or drops it.
  pub rule_lines-policy :
      (v : Validators) (has_conntrack : Bool) (d : Direction) (cfg : FirewallConfig)
      (ls : List Line) (p : P)
      → rule_lines v has_conntrack cfg ≡ some ls
      → net.verdict (chain_of d ls) p ≡ policy net.packets v has_conntrack d cfg p
  unfolding rule_lines established_lines
  rule_lines-policy v ct d cfg ls p e =
      let (args, made, whole) = around_rules-some ct cfg (rule_args v cfg.rules) ls e in
      let otherwise = by_default (default_of d cfg) in
      ap (λ x. net.verdict (chain_of d x) p) (sym whole)
      ∙ established_chain d (ct && cfg.established_inbound) (ct && cfg.established_outbound)
          (args ++ default_lines cfg) p
      ∙ ap
          (λ x.
            if pick d (ct && cfg.established_inbound) (ct && cfg.established_outbound)
              && net.packets.is_established p
            then accept_it
            else x)
          (rules-policy v d (default_lines cfg) p cfg.rules args made
            ∙ ap (λ x. decide_rules net.packets v d x cfg.rules p) (default_chain d cfg p))
      ∙ pick_lem d ct cfg (net.packets.is_established p) accept_it
          (decide_rules net.packets v d otherwise cfg.rules p)
