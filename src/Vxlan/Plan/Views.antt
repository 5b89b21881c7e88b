-- ===== src/Vxlan/Plan/Views.antt =====
-- What a list of commands does to one view of the device.
use virt_pilot.Common.{
  ◌≡◌, refl, ap, ◌∙◌, inl, inr, Bool, true, false, not, ◌&&◌, ◌||◌, Option, none, some, List, [],
  ◌∷◌, ◌++◌, map, if◌then◌else◌, arith, Bool-cases, String, same, same-cases, includes,
}
use virt_pilot.Vxlan.Plan.{
  VxlanLink, TunnelWanted, TunnelStep, link_down, link_add, set_mtu, set_master, fdb_del,
  fdb_append, link_up, should_be_up, push_if, is_given, is_up, has_other_mtu, is_off_bridge,
  master_steps, missing_from, middle, tunnel_steps,
}
use virt_pilot.Vxlan.Plan.Stages.{Kernel, floods_after, run_all}

-- A view of the device, through a list of commands.
module _ {V : Type 0} (step_view : TunnelStep → V → V) where
  abbrev pub view_all : List TunnelStep → V → V
  view_all [] v = v
  view_all (s ∷ rest) v = view_all rest (step_view s v)

  pub view_all-append :
      (xs ys : List TunnelStep) (v : V) → view_all (xs ++ ys) v ≡ view_all ys (view_all xs v)
  view_all-append [] ys v = refl
  view_all-append (x ∷ xs) ys v = view_all-append xs ys (step_view x v)

  pub view_all-runs {ℓ} :
      {K : Type ℓ} (kernel : Kernel K) (view : K → V)
      → ((s : TunnelStep) (k : K) → view (kernel.run s k) ≡ step_view s (view k))
      → (xs : List TunnelStep) (k : K) → view (run_all kernel xs k) ≡ view_all xs (view k)
  view_all-runs kernel view law [] k = refl
  view_all-runs kernel view law (x ∷ xs) k =
      view_all-runs kernel view law xs (kernel.run x k) ∙ ap (view_all xs) (law x k)

  pub push_if-view :
      (c : Bool) (s : TunnelStep) (v : V)
      → view_all (push_if c s) v ≡ (if c then step_view s v else v)
  push_if-view true s v = refl
  push_if-view false s v = refl

  -- A view that the peers' commands leave alone.
  pub peers-still :
      (each : String → TunnelStep) (ps : List String) (v : V)
      → ((p : String) (w : V) → step_view (each p) w ≡ w)
      → view_all (map each ps) v ≡ v
  peers-still each [] v h = refl
  peers-still each (p ∷ ps) v h = peers-still each ps (step_view (each p) v) h ∙ h p v

  -- The plan, a group of commands at a time.
  pub tunnel_steps-view :
      (want : TunnelWanted) (have : Option VxlanLink) (have_peers : List String) (v : V)
      → view_all (tunnel_steps want have have_peers) v
        ≡ view_all (push_if (should_be_up want && not (is_up have)) link_up) (
            view_all (map fdb_append (missing_from have_peers want.peers)) (
              view_all (map fdb_del (missing_from want.peers have_peers)) (
                view_all (master_steps want.bridge have) (
                  view_all (push_if (has_other_mtu want.mtu have) (set_mtu want.mtu)) (
                    view_all
                      (push_if (not (is_given have)) (link_add want.vni want.port))
                      (view_all (push_if (is_up have && not (should_be_up want)) link_down) v))))))
  unfolding tunnel_steps middle
  tunnel_steps-view want have have_peers v =
      let close = push_if (is_up have && not (should_be_up want)) link_down in
      let add = push_if (not (is_given have)) (link_add want.vni want.port) in
      let mtu = push_if (has_other_mtu want.mtu have) (set_mtu want.mtu) in
      let bridge = master_steps want.bridge have in
      let dels = map fdb_del (missing_from want.peers have_peers) in
      let appends = map fdb_append (missing_from have_peers want.peers) in
      let open_up = push_if (should_be_up want && not (is_up have)) link_up in
      let w = view_all close v in
      view_all-append (close ++ (add ++ mtu ++ bridge ++ dels ++ appends)) open_up v
      ∙ ap (view_all open_up) (
          view_all-append close (add ++ mtu ++ bridge ++ dels ++ appends) v
          ∙ view_all-append (add ++ mtu ++ bridge ++ dels) appends w
          ∙ ap (view_all appends) (
              view_all-append (add ++ mtu ++ bridge) dels w
              ∙ ap (view_all dels) (
                  view_all-append (add ++ mtu) bridge w
                  ∙ ap (view_all bridge) (view_all-append add mtu w))))

pub dels-floods :
    (q : String) (ps : List String) (f : Bool)
    → view_all (floods_after q) (map fdb_del ps) f ≡ (f && not (includes ps q))
dels-floods q [] f = ground arith
dels-floods q (p ∷ ps) f = elim (Bool-cases (same p q)) [
  | inl e ↦ ground (arith, e, dels-floods q ps (if same p q then false else f))
  | inr e ↦ ground (arith, e, dels-floods q ps (if same p q then false else f))
]

pub appends-floods :
    (q : String) (ps : List String) (f : Bool)
    → view_all (floods_after q) (map fdb_append ps) f ≡ (f || includes ps q)
appends-floods q [] f = ground arith
appends-floods q (p ∷ ps) f = elim (Bool-cases (same p q)) [
  | inl e ↦ ground (arith, e, appends-floods q ps (if same p q then true else f))
  | inr e ↦ ground (arith, e, appends-floods q ps (if same p q then true else f))
]

pub includes-missing_from :
    (q : String) (there ps : List String)
    → includes (missing_from there ps) q ≡ (includes ps q && not (includes there q))
includes-missing_from q there [] = refl
includes-missing_from q there (p ∷ ps) =
    let rest = includes-missing_from q there ps in
    elim (same-cases p q) [
      | inl (one, e) ↦ elim (Bool-cases (includes there q)) [
        | inl t ↦ rw (ap (includes there) one ∙ t) (rest ∙ ground (arith, t))
        | inr t ↦ rw (ap (includes there) one ∙ t) (ground (arith, e, t))
      ]
      | inr (apart, e) ↦ elim (Bool-cases (includes there p)) [
        | inl t ↦ rw (t, e) rest
        | inr t ↦ rw (t, e) (ground (arith, e, rest))
      ]
    ]

pub same_if {ℓ} : {A : Type ℓ} (c : Bool) (x : A) → (if c then x else x) ≡ x
same_if true x = refl
same_if false x = refl

pub push_if-still :
    {V : Type 0} (step_view : TunnelStep → V → V) (c : Bool) (s : TunnelStep) (v : V)
    → step_view s v ≡ v
    → view_all step_view (push_if c s) v ≡ v
push_if-still step_view true s v h = h
push_if-still step_view false s v h = refl

pub master_steps-still :
    {V : Type 0} (step_view : TunnelStep → V → V) (bridge : Option String) (have : Option VxlanLink)
    (v : V)
    → ((b : String) → step_view (set_master b) v ≡ v)
    → view_all step_view (master_steps bridge have) v ≡ v
master_steps-still step_view none have v h = refl
master_steps-still step_view (some b) have v h =
    push_if-still step_view (not (same b "") && is_off_bridge b have) (set_master b) v (h b)
