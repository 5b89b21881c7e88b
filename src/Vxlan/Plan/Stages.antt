-- ===== src/Vxlan/Plan/Stages.antt =====
-- The host's kernel under `planTunnel`'s commands: `ip` and `bridge` are programs of the host, so they
-- are parameters, with what each command is documented to do to the four things the plan is about.
use virt_pilot.Common.{
  ℕ, zero, suc, ◌≤◌, ◌≡◌, refl, ap, ◌∙◌, inl, inr, Bool, true, false, not, ◌&&◌, Option, none, some,
  List, [], ◌∷◌, ◌++◌, map, length, take, leb, leb→le, length-append, if◌then◌else◌, arith,
  Bool-cases, ◌⊎◌, String, same, includes,
}
use virt_pilot.Vxlan.Plan.{
  VxlanLink, TunnelWanted, TunnelStep, link_down, link_add, set_mtu, set_master, fdb_del,
  fdb_append, link_up, should_be_up, push_if, is_given, is_up, has_other_mtu, is_off_bridge,
  master_steps, missing_from, middle, tunnel_steps,
}

-- A new device is down.
abbrev pub up_after : TunnelStep → Bool → Bool
up_after link_down u = false
up_after (link_add vni port) u = false
up_after (set_mtu m) u = u
up_after (set_master b) u = u
up_after (fdb_del p) u = u
up_after (fdb_append p) u = u
up_after link_up u = true

abbrev pub mtu_after : TunnelStep → ℕ → ℕ
mtu_after link_down m = m
mtu_after (link_add vni port) m = 1500
mtu_after (set_mtu n) m = n
mtu_after (set_master b) m = m
mtu_after (fdb_del p) m = m
mtu_after (fdb_append p) m = m
mtu_after link_up m = m

abbrev pub master_after : TunnelStep → Option String → Option String
master_after link_down o = o
master_after (link_add vni port) o = none
master_after (set_mtu n) o = o
master_after (set_master b) o = some b
master_after (fdb_del p) o = o
master_after (fdb_append p) o = o
master_after link_up o = o

-- Whether the device floods to the host `q`.
abbrev pub floods_after : String → TunnelStep → Bool → Bool
floods_after q link_down f = f
floods_after q (link_add vni port) f = false
floods_after q (set_mtu n) f = f
floods_after q (set_master b) f = f
floods_after q (fdb_del p) f = if same p q then false else f
floods_after q (fdb_append p) f = if same p q then true else f
floods_after q link_up f = f

-- The device of the wanted ID, as commands that succeed leave it.
pub record Kernel {ℓ} (K : Type ℓ) : Type ℓ where
  pub run : TunnelStep → K → K
  pub up : K → Bool
  pub mtu : K → ℕ
  pub master : K → Option String
  pub floods : String → K → Bool
  pub run-up : (s : TunnelStep) (k : K) → up (run s k) ≡ up_after s (up k)
  pub run-mtu : (s : TunnelStep) (k : K) → mtu (run s k) ≡ mtu_after s (mtu k)
  pub run-master : (s : TunnelStep) (k : K) → master (run s k) ≡ master_after s (master k)
  pub run-floods :
      (q : String) (s : TunnelStep) (k : K) → floods q (run s k) ≡ floods_after q s (floods q k)

module _ {ℓ} {K : Type ℓ} (kernel : Kernel K) where
  abbrev pub run_all : List TunnelStep → K → K
  run_all [] k = k
  run_all (s ∷ rest) k = run_all rest (kernel.run s k)

  pub run_all-append :
      (xs ys : List TunnelStep) (k : K) → run_all (xs ++ ys) k ≡ run_all ys (run_all xs k)
  run_all-append [] ys k = refl
  run_all-append (x ∷ xs) ys k = run_all-append xs ys (kernel.run x k)

-- What `readState` has read of the device, none when it is not there: no device floods to nobody and is down.
pub record IsRead {ℓ} {K : Type ℓ} (kernel : Kernel K) (have : Option VxlanLink)
    (have_peers : List String) (k : K) : Type ℓ where
  pub up : kernel.up k ≡ is_up have
  pub mtu : (l : VxlanLink) → have ≡ some l → kernel.mtu k ≡ l.mtu
  pub master : (l : VxlanLink) → have ≡ some l → kernel.master k ≡ l.master
  pub floods : (q : String) → kernel.floods q k ≡ (is_given have && includes have_peers q)
  pub no_peers : have ≡ none → have_peers ≡ []

-- A command that leaves the device down.
abbrev keeps_down : TunnelStep → Bool
keeps_down link_up = false
keeps_down s = true

abbrev all_keep_down : List TunnelStep → Bool
all_keep_down [] = true
all_keep_down (s ∷ rest) = keeps_down s && all_keep_down rest

keeps_down-append :
    (xs ys : List TunnelStep)
    → all_keep_down xs ≡ true
    → all_keep_down ys ≡ true
    → all_keep_down (xs ++ ys) ≡ true
keeps_down-append [] ys hx hy = hy
keeps_down-append (x ∷ xs) ys hx hy = ground (arith, hx, keeps_down-append xs ys)

keeps_down-push_if :
    (c : Bool) (s : TunnelStep) → keeps_down s ≡ true → all_keep_down (push_if c s) ≡ true
keeps_down-push_if true s h = rw h refl
keeps_down-push_if false s h = refl

keeps_down-dels : (ps : List String) → all_keep_down (map fdb_del ps) ≡ true
keeps_down-dels [] = refl
keeps_down-dels (p ∷ ps) = keeps_down-dels ps

keeps_down-appends : (ps : List String) → all_keep_down (map fdb_append ps) ≡ true
keeps_down-appends [] = refl
keeps_down-appends (p ∷ ps) = keeps_down-appends ps

keeps_down-master :
    (bridge : Option String) (have : Option VxlanLink)
    → all_keep_down (master_steps bridge have) ≡ true
keeps_down-master none have = refl
keeps_down-master (some b) have =
    keeps_down-push_if (not (same b "") && is_off_bridge b have) (set_master b) refl

keeps_down-five :
    (a b c d e : List TunnelStep)
    → all_keep_down a ≡ true
    → all_keep_down b ≡ true
    → all_keep_down c ≡ true
    → all_keep_down d ≡ true
    → all_keep_down e ≡ true
    → all_keep_down (a ++ b ++ c ++ d ++ e) ≡ true
keeps_down-five a b c d e ha hb hc hd he =
    keeps_down-append (a ++ b ++ c ++ d) e
      (keeps_down-append (a ++ b ++ c) d
        (keeps_down-append (a ++ b) c (keeps_down-append a b ha hb) hc) hd)
      he

keeps_down-middle :
    (want : TunnelWanted) (have : Option VxlanLink) (have_peers : List String)
    → all_keep_down (middle want have have_peers) ≡ true
unfolding middle
keeps_down-middle want have have_peers =
    keeps_down-five (push_if (not (is_given have)) (link_add want.vni want.port))
      (push_if (has_other_mtu want.mtu have) (set_mtu want.mtu)) (master_steps want.bridge have)
      (map fdb_del (missing_from want.peers have_peers))
      (map fdb_append (missing_from have_peers want.peers))
      (keeps_down-push_if (not (is_given have)) (link_add want.vni want.port) refl)
      (keeps_down-push_if (has_other_mtu want.mtu have) (set_mtu want.mtu) refl)
      (keeps_down-master want.bridge have) (keeps_down-dels (missing_from want.peers have_peers))
      (keeps_down-appends (missing_from have_peers want.peers))

up_after-down : (s : TunnelStep) → keeps_down s ≡ true → up_after s false ≡ false
up_after-down link_down h = refl
up_after-down (link_add vni port) h = refl
up_after-down (set_mtu m) h = refl
up_after-down (set_master b) h = refl
up_after-down (fdb_del p) h = refl
up_after-down (fdb_append p) h = refl
up_after-down link_up h = absurd (ground (arith, h))

take-append {ℓ} :
    {A : Type ℓ} (n : ℕ) (xs ys : List A) → n ≤ length xs → take n (xs ++ ys) ≡ take n xs
take-append zero xs ys h = refl
take-append (suc n) [] ys h = absurd (omega (arith, h))
take-append (suc n) (x ∷ xs) ys h = ap (λ zs. x ∷ zs) (take-append n xs ys (omega (arith, h)))

-- The plan by its parts.
abbrev around : Bool → Bool → List TunnelStep → List TunnelStep
around was should m =
    push_if (was && not should) link_down ++ m ++ push_if (should && not was) link_up

tunnel_steps-around :
    (want : TunnelWanted) (have : Option VxlanLink) (have_peers : List String)
    → tunnel_steps want have have_peers
      ≡ around (is_up have) (should_be_up want) (middle want have have_peers)
unfolding tunnel_steps
tunnel_steps-around want have have_peers = refl

module _ {ℓ} {K : Type ℓ} (kernel : Kernel K) where
  down_stays :
      (n : ℕ) (steps : List TunnelStep) (k : K)
      → all_keep_down steps ≡ true
      → kernel.up k ≡ false
      → kernel.up (run_all kernel (take n steps) k) ≡ false
  down_stays zero steps k h d = d
  down_stays (suc n) [] k h d = d
  down_stays (suc n) (s ∷ rest) k h d =
      down_stays n rest (kernel.run s k) (ground (arith, h))
        (kernel.run-up s k ∙ ap (up_after s) d ∙ up_after-down s (ground (arith, h)))

  around-safe :
      (was should : Bool) (m : List TunnelStep) (k : K) (n : ℕ)
      → all_keep_down m ≡ true
      → kernel.up k ≡ was
      → kernel.up (run_all kernel (take n (around was should m)) k) ≡ true
      → (n ≡ 0) ⊎ ((should ≡ true) × ((was ≡ true) ⊎ (length (around was should m) ≤ n)))
  around-safe true true m k n h w u = inr (refl, inl refl)
  around-safe true false m k zero h w u = inl refl
  around-safe true false m k (suc n) h w u = absurd (
      ground (
        arith,
        u,
        down_stays n (m ++ []) (kernel.run link_down k) (keeps_down-append m [] h refl)
            (kernel.run-up link_down k),
      ))
  around-safe false false m k n h w u =
      absurd (ground (arith, u, down_stays n (m ++ []) k (keeps_down-append m [] h refl) w))
  around-safe false true m k n h w u = elim (Bool-cases (leb (suc (length m)) n)) [
    | inl t ↦
        inr (refl, inr (omega (arith, length-append m (link_up ∷ []), leb→le (suc (length m)) n t)))
    | inr t ↦
        let few : n ≤ length m = ground (arith, t) in
        absurd (
          ground (
            arith,
            u,
            down_stays n m k h w,
            ap (λ xs. kernel.up (run_all kernel xs k)) (take-append n m (link_up ∷ []) few),
          ))
  ]

  -- Stopped after any number of commands from the device as it was read, the device is up only when nothing was
  -- done, or it should be up and either was up before or the whole plan has been carried out.
  pub tunnel_steps-safe :
      (want : TunnelWanted) (have : Option VxlanLink) (have_peers : List String) (k : K) (n : ℕ)
      → IsRead kernel have have_peers k
      → kernel.up (run_all kernel (take n (tunnel_steps want have have_peers)) k) ≡ true
      → (n ≡ 0)
        ⊎ ((should_be_up want ≡ true)
            × ((is_up have ≡ true) ⊎ (length (tunnel_steps want have have_peers) ≤ n)))
  tunnel_steps-safe want have have_peers k n r u =
      let e = tunnel_steps-around want have have_peers in
      rw e (
        around-safe (is_up have) (should_be_up want) (middle want have have_peers) k n
          (keeps_down-middle want have have_peers) r.up (rw e at u))
