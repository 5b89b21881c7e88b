-- ===== src/Vxlan/Plan.antt =====
-- `planTunnel` of packages/backend/src/lib/vxlan.ts. A command is a constructor; the device's name,
-- which every command carries, is that of the wanted ID.
pub mod Stages
pub mod Views
pub mod Converge
use virt_pilot.Common.{
  ℕ, ◌<◌, Bool, true, false, not, ◌&&◌, ◌||◌, Option, none, some, List, [], ◌∷◌, ◌++◌, map, keep,
  length, if◌then◌else◌, ltb, ◌==◌, String, same, includes,
}

pub record VxlanLink : Type 0 where
  pub vni : ℕ
  pub port : ℕ
  pub mtu : ℕ
  pub master : Option String
  pub up : Bool

pub record TunnelWanted : Type 0 where
  pub vni : ℕ
  pub port : ℕ
  pub peers : List String
  pub mtu : ℕ
  pub bridge : Option String
  pub allow_up : Bool

pub data TunnelStep : Type 0 where
  link_down : TunnelStep
  link_add : (vni port : ℕ) → TunnelStep
  set_mtu : (mtu : ℕ) → TunnelStep
  set_master : (bridge : String) → TunnelStep
  fdb_del : (peer : String) → TunnelStep
  fdb_append : (peer : String) → TunnelStep
  link_up : TunnelStep

pub data TunnelPlan : Type 0 where
  conflict : TunnelPlan
  steps : List TunnelStep → TunnelPlan

-- `!== null`, `!== undefined`
abbrev pub is_given {ℓ} : {A : Type ℓ} → Option A → Bool
is_given none = false
is_given (some a) = true

unfoldable pub should_be_up : TunnelWanted → Bool
should_be_up want = want.allow_up && ltb 0 (length want.peers) && is_given want.bridge

-- `if (c) steps.push(s)`
abbrev pub push_if : Bool → TunnelStep → List TunnelStep
push_if c s = if c then s ∷ [] else []

abbrev pub is_other_device : TunnelWanted → Option VxlanLink → Bool
is_other_device want none = false
is_other_device want (some l) = not (l.vni == want.vni) || not (l.port == want.port)

-- `have?.up`
abbrev pub is_up : Option VxlanLink → Bool
is_up none = false
is_up (some l) = l.up

-- `!have || have.mtu !== want.mtu`
abbrev pub has_other_mtu : ℕ → Option VxlanLink → Bool
has_other_mtu m none = true
has_other_mtu m (some l) = not (l.mtu == m)

-- `have?.master !== bridge`
abbrev pub is_off_bridge : String → Option VxlanLink → Bool
is_off_bridge b none = true
is_off_bridge b (some l) = elim l.master [ none ↦ true | some m ↦ not (same m b) ]

abbrev pub master_steps : Option String → Option VxlanLink → List TunnelStep
master_steps none have = []
master_steps (some b) have = push_if (not (same b "") && is_off_bridge b have) (set_master b)

-- The peers of the first list that are not in the second.
abbrev pub missing_from : List String → List String → List String
missing_from there peers = keep (λ p. not (includes there p)) peers

-- The commands between the one that closes the tunnel and the one that opens it.
unfoldable pub middle : TunnelWanted → Option VxlanLink → List String → List TunnelStep
middle want have have_peers =
    push_if (not (is_given have)) (link_add want.vni want.port)
    ++ push_if (has_other_mtu want.mtu have) (set_mtu want.mtu)
    ++ master_steps want.bridge have
    ++ map fdb_del (missing_from want.peers have_peers)
    ++ map fdb_append (missing_from have_peers want.peers)

unfoldable pub tunnel_steps : TunnelWanted → Option VxlanLink → List String → List TunnelStep
tunnel_steps want have have_peers =
    push_if (is_up have && not (should_be_up want)) link_down
    ++ middle want have have_peers
    ++ push_if (should_be_up want && not (is_up have)) link_up

unfoldable pub plan_tunnel : TunnelWanted → Option VxlanLink → List String → TunnelPlan
plan_tunnel want have have_peers =
    if is_other_device want have then conflict else steps (tunnel_steps want have have_peers)
