-- ===== src/Tests/VxlanTests.antt =====
-- A tunnel with one remote host too many and one too few.
use Prim.Native.String.{String}
use virt_pilot.Common.{
  ◌<◌, ◌⊎◌, ◌+◌, ℕ, ◌≤◌, ◌≡◌, refl, ◌⊎◌, ◌↔◌, Bool, true, false, Option, none, some, List, [], ◌∷◌,
  length, includes, take, arith, ap,
}
use virt_pilot.Vxlan.Limits.{
  vni_min, vni_max, first_free, next_free_vni, has, next_free_vni-free, next_free_vni-none_iff,
  default_vxlan_mtu, default_vxlan_mtu-IsLargest,
}
use virt_pilot.Vxlan.Plan.{
  VxlanLink, TunnelWanted, TunnelStep, middle, tunnel_steps, should_be_up, is_up,
}
use virt_pilot.Vxlan.Plan.Stages.{
  Kernel, up_after, mtu_after, master_after, floods_after, run_all, IsRead, tunnel_steps-safe,
}
use virt_pilot.Vxlan.Plan.Converge.{IsThere, tunnel_steps-IsThere}

-- A device by what can be seen of it.
record Device : Type 0 where
  up : Bool
  mtu : ℕ
  master : Option String
  floods : String → Bool

abbrev kernel : Kernel Device
kernel = record {
  run = λ s d. record {
    up = up_after s d.up;
    mtu = mtu_after s d.mtu;
    master = master_after s d.master;
    floods = λ q. floods_after q s (d.floods q);
  };
  up = λ d. d.up;
  mtu = λ d. d.mtu;
  master = λ d. d.master;
  floods = λ q d. d.floods q;
  run-up = λ s d. refl;
  run-mtu = λ s d. refl;
  run-master = λ s d. refl;
  run-floods = λ q s d. refl;
}

abbrev want : TunnelWanted
want = record {
  vni = 100;
  port = 4789;
  peers = "10.0.0.2" ∷ "10.0.0.3" ∷ [];
  mtu = 1442;
  bridge = some "vpbr100";
  allow_up = true;
}

abbrev link : VxlanLink
link = record { vni = 100; port = 4789; mtu = 1500; master = none; up = false }

abbrev had_peers : List String
had_peers = "10.0.0.2" ∷ "10.0.0.9" ∷ []

abbrev device : Device
device = record { up = false; mtu = 1500; master = none; floods = includes had_peers }

device-IsRead : IsRead kernel (some link) had_peers device
device-IsRead = record {
  up = refl;
  mtu = λ l e. ap (λ (o : Option VxlanLink). elim o [ none ↦ 0 | some x ↦ x.mtu ]) e;
  master = λ l e. ap (λ (o : Option VxlanLink). elim o [ none ↦ none | some x ↦ x.master ]) e;
  floods = λ q. refl;
  no_peers = λ e. absurd (ground (arith, e));
}

abbrev plan : List TunnelStep
plan = tunnel_steps want (some link) had_peers

abbrev commands : ℕ
commands = 5

up_at_last : kernel.up (run_all kernel (take commands plan) device) ≡ true
unfolding tunnel_steps should_be_up middle
up_at_last = refl

tunnel_steps-safe_example :
    (commands ≡ 0)
    ⊎ ((should_be_up want ≡ true)
        × ((is_up (some link) ≡ true)
            ⊎ (length (tunnel_steps want (some link) had_peers) ≤ commands)))
tunnel_steps-safe_example =
    tunnel_steps-safe kernel want (some link) had_peers device commands device-IsRead up_at_last

tunnel_steps-IsThere_example :
    IsThere kernel want (run_all kernel (tunnel_steps want (some link) had_peers) device)
tunnel_steps-IsThere_example =
    tunnel_steps-IsThere kernel want (some link) had_peers device device-IsRead

abbrev used : List ℕ
used = 100 ∷ 101 ∷ 7 ∷ []

next_is : next_free_vni used 100 ≡ some 102
unfolding next_free_vni first_free
next_is = refl

next_free_vni-free_example : (vni_min ≤ 102) × (102 ≤ vni_max) × (has 102 used ≡ false)
next_free_vni-free_example = next_free_vni-free used 100 102 (omega arith) (omega arith) next_is

next_free_vni-none_iff_example :
    (next_free_vni used 100 ≡ none) ↔ ((v : ℕ) → vni_min ≤ v → v ≤ vni_max → has v used ≡ true)
next_free_vni-none_iff_example = next_free_vni-none_iff used 100 (omega arith) (omega arith)

default_vxlan_mtu-IsLargest_example :
    ((1450 < 576 + 50 + 8) × (default_vxlan_mtu (some 1450) ≡ 576))
    ⊎ ((default_vxlan_mtu (some 1450) + 50 + 8 ≤ 1450)
        × (default_vxlan_mtu (some 1450) + 50 + 8 ≤ 1500)
        × ((k : ℕ) → k + 50 + 8 ≤ 1450 → k + 50 + 8 ≤ 1500 → k ≤ default_vxlan_mtu (some 1450)))
default_vxlan_mtu-IsLargest_example = default_vxlan_mtu-IsLargest 1450 (omega arith)
