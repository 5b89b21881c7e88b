-- ===== src/Vxlan/Plan/Converge.antt =====
-- Where `planTunnel`'s commands lead when all of them succeed.
use virt_pilot.Common.{
  ℕ, ◌≡◌, refl, ap, ◌∙◌, inl, inr, Bool, true, false, not, ◌&&◌, Option, none, some, List, [], map,
  if◌then◌else◌, ◌==◌, arith, Bool-cases, ◌≢◌, String, same, same-cases, same→eq, includes,
}
use virt_pilot.Vxlan.Plan.{
  VxlanLink, TunnelWanted, link_down, link_add, set_mtu, fdb_del, fdb_append, link_up, should_be_up,
  push_if, is_given, is_up, has_other_mtu, is_off_bridge, master_steps, missing_from, tunnel_steps,
}
use virt_pilot.Vxlan.Plan.Stages.{
  Kernel, up_after, mtu_after, master_after, floods_after, run_all, IsRead,
}
use virt_pilot.Vxlan.Plan.Views.{
  view_all, view_all-runs, push_if-view, peers-still, tunnel_steps-view, dels-floods,
  appends-floods, includes-missing_from, push_if-still, master_steps-still,
}

-- The views of the device, as the plan leaves them.
none_given :
    (have : Option VxlanLink) (have_peers : List String) (q : String)
    → (have ≡ none → have_peers ≡ [])
    → is_given have ≡ false
    → includes have_peers q ≡ false
none_given none have_peers q h e = ap (λ ps. includes ps q) (h refl)
none_given (some l) have_peers q h e = absurd (ground (arith, e))

none_down : (have : Option VxlanLink) → is_given have ≡ false → is_up have ≡ false
none_down none e = refl
none_down (some l) e = absurd (ground (arith, e))

set_mtu-view :
    (want : TunnelWanted) (have : Option VxlanLink) (m : ℕ)
    → ((l : VxlanLink) → have ≡ some l → m ≡ l.mtu)
    → view_all mtu_after
        (push_if (has_other_mtu want.mtu have) (set_mtu want.mtu))
        (view_all mtu_after (push_if (not (is_given have)) (link_add want.vni want.port)) m)
      ≡ want.mtu
set_mtu-view want none m h = refl
set_mtu-view want (some l) m h = elim (Bool-cases (l.mtu == want.mtu)) [
  | inl e ↦ rw e (h l refl ∙ ground (arith, e))
  | inr e ↦ rw e refl
]

off_bridge :
    (b : String) (o : Option String)
    → elim o [ none ↦ true | some m ↦ not (same m b) ] ≡ false
    → o ≡ some b
off_bridge b none e = absurd (ground (arith, e))
off_bridge b (some m) e = ap some (same→eq m b (ground (arith, e)))

set_master-view :
    (want : TunnelWanted) (have : Option VxlanLink) (b : String) (o : Option String)
    → b ≢ ""
    → ((l : VxlanLink) → have ≡ some l → o ≡ l.master)
    → view_all master_after
        (master_steps (some b) have)
        (view_all master_after (push_if (not (is_given have)) (link_add want.vni want.port)) o)
      ≡ some b
set_master-view want none b o real h = elim (same-cases b "") [
  | inl (e, t) ↦ absurd (real e)
  | inr (ne, t) ↦ rw t refl
]
set_master-view want (some l) b o real h = elim (same-cases b "") [
  | inl (e, t) ↦ absurd (real e)
  | inr (ne, t) ↦ elim (Bool-cases (is_off_bridge b (some l))) [
    | inl off ↦ rw (t, off) refl
    | inr on ↦ rw (t, on) (h l refl ∙ off_bridge b l.master on)
  ]
]

module _ (want : TunnelWanted) (have : Option VxlanLink) (have_peers : List String) where
  plan-floods :
      (q : String)
      → (have ≡ none → have_peers ≡ [])
      → view_all
          (floods_after q)
          (tunnel_steps want have have_peers)
          (is_given have && includes have_peers q)
        ≡ includes want.peers q
  plan-floods q h =
      let first = is_given have && includes have_peers q in
      let go = view_all (floods_after q) in
      let open_up = push_if (should_be_up want && not (is_up have)) link_up in
      let appends = map fdb_append (missing_from have_peers want.peers) in
      let dels = map fdb_del (missing_from want.peers have_peers) in
      let added : (if not (is_given have) then false else first) ≡ first = ground (arith) in
      tunnel_steps-view (floods_after q) want have have_peers first
      ∙ push_if-still (floods_after q) (should_be_up want && not (is_up have)) link_up _ refl
      ∙ ap (λ f. go appends (go dels f))
          (master_steps-still (floods_after q) want.bridge have _ (λ b. refl)
            ∙ push_if-still (floods_after q) (has_other_mtu want.mtu have) (set_mtu want.mtu) _ refl
            ∙ ap (go (push_if (not (is_given have)) (link_add want.vni want.port))) (
                push_if-still (floods_after q) (is_up have && not (should_be_up want)) link_down
                  first refl)
            ∙ push_if-view (floods_after q) (not (is_given have)) (link_add want.vni want.port)
                first
            ∙ added)
      ∙ ap (go appends) (dels-floods q (missing_from want.peers have_peers) first)
      ∙ appends-floods q (missing_from have_peers want.peers) _
      ∙ ground (
        arith,
        includes-missing_from q want.peers have_peers,
        includes-missing_from q have_peers want.peers,
        none_given have have_peers q h,
      )

  plan-up : view_all up_after (tunnel_steps want have have_peers) (is_up have) ≡ should_be_up want
  plan-up =
      let go = view_all up_after in
      let open_up = push_if (should_be_up want && not (is_up have)) link_up in
      let shut : Bool = if is_up have && not (should_be_up want) then false else is_up have in
      tunnel_steps-view up_after want have have_peers (is_up have)
      ∙ ap (go open_up) (
          peers-still up_after fdb_append (missing_from have_peers want.peers) _ (λ p w. refl)
          ∙ peers-still up_after fdb_del (missing_from want.peers have_peers) _ (λ p w. refl)
          ∙ master_steps-still up_after want.bridge have _ (λ b. refl)
          ∙ push_if-still up_after (has_other_mtu want.mtu have) (set_mtu want.mtu) _ refl
          ∙ ap (go (push_if (not (is_given have)) (link_add want.vni want.port)))
              (push_if-view up_after (is_up have && not (should_be_up want)) link_down (is_up have))
          ∙ push_if-view up_after (not (is_given have)) (link_add want.vni want.port) shut)
      ∙ push_if-view up_after (should_be_up want && not (is_up have)) link_up _
      ∙ ground (arith, none_down have)

  plan-mtu :
      (m : ℕ)
      → ((l : VxlanLink) → have ≡ some l → m ≡ l.mtu)
      → view_all mtu_after (tunnel_steps want have have_peers) m ≡ want.mtu
  plan-mtu m h =
      let go = view_all mtu_after in
      tunnel_steps-view mtu_after want have have_peers m
      ∙ push_if-still mtu_after (should_be_up want && not (is_up have)) link_up _ refl
      ∙ peers-still mtu_after fdb_append (missing_from have_peers want.peers) _ (λ p w. refl)
      ∙ peers-still mtu_after fdb_del (missing_from want.peers have_peers) _ (λ p w. refl)
      ∙ master_steps-still mtu_after want.bridge have _ (λ b. refl)
      ∙ ap
          (λ w.
            go (push_if (has_other_mtu want.mtu have) (set_mtu want.mtu))
              (go (push_if (not (is_given have)) (link_add want.vni want.port)) w))
          (push_if-still mtu_after (is_up have && not (should_be_up want)) link_down m refl)
      ∙ set_mtu-view want have m h

  plan-master :
      (b : String) (o : Option String)
      → want.bridge ≡ some b
      → b ≢ ""
      → ((l : VxlanLink) → have ≡ some l → o ≡ l.master)
      → view_all master_after (tunnel_steps want have have_peers) o ≡ some b
  plan-master b o e real h =
      let go = view_all master_after in
      tunnel_steps-view master_after want have have_peers o
      ∙ push_if-still master_after (should_be_up want && not (is_up have)) link_up _ refl
      ∙ peers-still master_after fdb_append (missing_from have_peers want.peers) _ (λ p w. refl)
      ∙ peers-still master_after fdb_del (missing_from want.peers have_peers) _ (λ p w. refl)
      ∙ ap (go (master_steps want.bridge have)) (
          push_if-still master_after (has_other_mtu want.mtu have) (set_mtu want.mtu) _ refl
          ∙ ap (go (push_if (not (is_given have)) (link_add want.vni want.port)))
              (push_if-still master_after (is_up have && not (should_be_up want)) link_down o refl))
      ∙ ap
          (λ br.
            go (master_steps br have)
              (go (push_if (not (is_given have)) (link_add want.vni want.port)) o))
          e
      ∙ set_master-view want have b o real h

-- The device as it is wanted.
pub record IsThere {ℓ} {K : Type ℓ} (kernel : Kernel K) (want : TunnelWanted) (k : K) : Type ℓ where
  pub up : kernel.up k ≡ should_be_up want
  pub mtu : kernel.mtu k ≡ want.mtu
  pub master : (b : String) → want.bridge ≡ some b → b ≢ "" → kernel.master k ≡ some b
  pub floods : (q : String) → kernel.floods q k ≡ includes want.peers q

-- When all its commands succeed from the device as it was read, the plan leaves the device up exactly when it
-- should be, with the wanted MTU, on the wanted bridge where one is named, and flooding to the wanted hosts and no
-- others.
pub tunnel_steps-IsThere {ℓ} :
    {K : Type ℓ} (kernel : Kernel K) (want : TunnelWanted) (have : Option VxlanLink)
    (have_peers : List String) (k : K)
    → IsRead kernel have have_peers k
    → IsThere kernel want (run_all kernel (tunnel_steps want have have_peers) k)
tunnel_steps-IsThere kernel want have have_peers k r =
    let steps = tunnel_steps want have have_peers in
    record {
      up =
          view_all-runs up_after kernel kernel.up kernel.run-up steps k
          ∙ ap (view_all up_after steps) r.up
          ∙ plan-up want have have_peers;
      mtu =
          view_all-runs mtu_after kernel kernel.mtu kernel.run-mtu steps k
          ∙ plan-mtu want have have_peers (kernel.mtu k) r.mtu;
      master = λ b e real.
          view_all-runs master_after kernel kernel.master kernel.run-master steps k
          ∙ plan-master want have have_peers b (kernel.master k) e real r.master;
      floods = λ q.
          view_all-runs (floods_after q) kernel (kernel.floods q) (kernel.run-floods q) steps k
          ∙ ap (view_all (floods_after q) steps) (r.floods q)
          ∙ plan-floods want have have_peers q r.no_peers;
    }
