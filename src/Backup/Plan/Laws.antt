-- ===== src/Backup/Plan/Laws.antt =====
-- When a run is incremental, and how long a chain gets.
use virt_pilot.Common.{
  ℕ, ◌≤◌, ◌<◌, ◌≡◌, ◌≢◌, refl, ap, ◌∙◌, ◌⊎◌, inl, inr, ◌↔◌, String, Bool, true, false, Option, none,
  some, List, [], ◌∷◌, Member, here, there, All, All-map, find, arith, truthy, leb, Bool-cases,
  Option-cases, not,
}
use virt_pilot.Backup.Types.{Kind, full, incremental, KindRequest, just, auto, Manifest, Entry}
use virt_pilot.Backup.Plan.{
  clamp_full_every, max_full_every, count_chain_length, first_backup, Readiness, not_ready, ready,
  Host, head_id_is, assess_parent, assess_incremental_readiness, Decision, decide_ready, decide,
}

pub clamp_full_every_bounds :
    (value : Option ℕ) → (1 ≤ clamp_full_every value) × (clamp_full_every value ≤ max_full_every)
unfolding clamp_full_every
clamp_full_every_bounds none = omega arith
clamp_full_every_bounds (some value) = omega arith

Kind-cases : (k : Kind) → (k ≡ full) ⊎ (k ≡ incremental)
Kind-cases full = inl refl
Kind-cases incremental = inr refl

find-none : (p : Entry → Bool) (l : List Entry) → (find p l ≡ none) ↔ All (λ b. p b ≡ false) l
find-none p [] = (λ _. tt, λ _. refl)
find-none p (x ∷ l) = (
  λ h. elim (Bool-cases (p x)) [
    | inl e ↦ absurd (ground (arith, e, h))
    | inr e ↦ (e, (find-none p l).0 (ground (arith, e, h)))
  ],
  λ (e, h). rw e ((find-none p l).1 h),
)

find-holds :
    (p : Entry → Bool) (l : List Entry) (b : Entry) → find p l ≡ some b → Member b l × (p b ≡ true)
find-holds p [] b h = cc
find-holds p (x ∷ l) b h = elim (Bool-cases (p x)) [
  | inl e ↦ let one : x ≡ b = ground (arith, e, h) in rw (← one) (here, e)
  | inr e ↦ let (m, t) = find-holds p l b (ground (arith, e, h)) in (there m, t)
]

-- What has to hold of a backup for another to be layered on it.
pub record CanChain (host : Host) (bs : List Entry) (running : Bool) (parent : Entry)
    (checkpoint : String) : Type 0 where
  pub listed : Member parent bs
  pub newest : head_id_is bs parent.id ≡ true
  pub intact : parent.chain_broken ≡ false
  pub runs : running ≡ true
  pub supported : host.is_backup_supported ≡ true
  pub manifest : Manifest
  pub read : host.manifest_of parent.id ≡ some manifest
  pub recorded : truthy manifest.checkpoint_name ≡ some checkpoint
  pub exists : host.checkpoint_exists checkpoint ≡ true

assess_parent-ready :
    (host : Host) (k n : ℕ) (bs : List Entry) (parent p : Entry) (checkpoint : String)
    → assess_parent host k bs parent ≡ ready n p checkpoint
    → (k ≡ n)
      × (parent ≡ p)
      × (head_id_is bs parent.id ≡ true)
      × ((manifest : Manifest) × (host.manifest_of parent.id ≡ some manifest)
          × (truthy manifest.checkpoint_name ≡ some checkpoint)
          × (host.checkpoint_exists checkpoint ≡ true))
unfolding assess_parent
assess_parent-ready host k n bs parent p checkpoint h =
    elim (Bool-cases (head_id_is bs parent.id)) [
      | inr e ↦ absurd (ground (arith, e, h))
      | inl top ↦ elim (Option-cases (host.manifest_of parent.id)) [
        | inl e ↦ absurd (ground (arith, top, e, h))
        | inr (manifest, read) ↦ elim (Option-cases (truthy manifest.checkpoint_name)) [
          | inl e ↦ absurd (ground (arith, top, read, e, h))
          | inr (c, recorded) ↦ elim (Bool-cases (host.checkpoint_exists c)) [
            | inr e ↦ absurd (ground (arith, top, read, recorded, e, h))
            | inl exists ↦
                let same_ready : ready k parent c ≡ ready n p checkpoint =
                  ground (arith, top, read, recorded, exists, h) in
                let one : c ≡ checkpoint = cc same_ready in
                (
                  cc same_ready,
                  cc same_ready,
                  top,
                  (manifest, read, recorded ∙ ap some one, rw (← one) exists),
                )
          ]
        ]
      ]
    ]

assess_parent-ne-first :
    (host : Host) (n : ℕ) (bs : List Entry) (parent : Entry)
    → assess_parent host n bs parent ≢ not_ready n first_backup
unfolding assess_parent
assess_parent-ne-first host n bs parent = ground (arith, Option-cases (host.manifest_of parent.id))

assess-ready :
    (host : Host) (bs : List Entry) (running : Bool) (n : ℕ) (p : Entry) (checkpoint : String)
    → assess_incremental_readiness host bs running ≡ ready n p checkpoint
    → (count_chain_length bs ≡ n) × CanChain host bs running p checkpoint
unfolding assess_incremental_readiness
assess-ready host bs running n p checkpoint h = elim (Bool-cases running) [
  | inr e ↦ absurd (ground (arith, e, h))
  | inl runs ↦ elim (Bool-cases host.is_backup_supported) [
    | inr e ↦ absurd (ground (arith, runs, e, h))
    | inl supported ↦ elim (Option-cases (find (λ (b : Entry). not b.chain_broken) bs)) [
      | inl e ↦ absurd (ground (arith, runs, supported, e, h))
      | inr (parent, e) ↦
          let (m, whole) = find-holds (λ b. not b.chain_broken) bs parent e in
          let (len, one, top, (manifest, read, recorded, exists)) =
            assess_parent-ready host (count_chain_length bs) n bs parent p checkpoint
              (ground (arith, runs, supported, e, h)) in
          (
            len,
            rw (← one) (record {
              listed = m;
              newest = top;
              intact = ground (arith, whole);
              runs = runs;
              supported = supported;
              manifest = manifest;
              read = read;
              recorded = recorded;
              exists = exists;
            }),
          )
    ]
  ]
]

decide_ready-incremental :
    (limit : ℕ) (requested : KindRequest) (r : Readiness)
    → (decide_ready limit requested r).kind ≡ incremental
    → (n : ℕ) × (p : Entry) × (checkpoint : String) × (r ≡ ready n p checkpoint)
      × (n < limit)
      × ((decide_ready limit requested r).parent_backup_id ≡ some p.id)
      × ((decide_ready limit requested r).incremental_from ≡ some checkpoint)
unfolding decide_ready
decide_ready-incremental limit requested (not_ready n why) h = absurd (ground arith)
decide_ready-incremental limit requested (ready n p checkpoint) h =
    elim (Bool-cases (leb limit n)) [
      | inl e ↦ absurd (ground (arith, e, h))
      | inr e ↦ (n, p, checkpoint, refl, ground (arith, e), ground (arith, e), ground (arith, e))
    ]

-- What a decision to take an incremental rests on.
pub record IsLayered (host : Host) (bs : List Entry) (running : Bool) (limit : ℕ) (d : Decision)
    : Type 0 where
  pub parent : Entry
  pub checkpoint : String
  pub can_chain : CanChain host bs running parent checkpoint
  pub short : count_chain_length bs < limit
  pub onto : d.parent_backup_id ≡ some parent.id
  pub from : d.incremental_from ≡ some checkpoint

decide_assessed :
    (host : Host) (bs : List Entry) (running : Bool) (requested : KindRequest) (limit : ℕ)
    → (decide_ready limit requested (assess_incremental_readiness host bs running)).kind
      ≡ incremental
    → IsLayered host bs running limit
        (decide_ready limit requested (assess_incremental_readiness host bs running))
decide_assessed host bs running requested limit h =
    let r = assess_incremental_readiness host bs running in
    let (n, p, checkpoint, e, lt, onto, from) = decide_ready-incremental limit requested r h in
    let (len, can) = assess-ready host bs running n p checkpoint e in
    record {
      parent = p;
      checkpoint = checkpoint;
      can_chain = can;
      short = omega arith;
      onto = onto;
      from = from;
    }

-- A run is incremental only when the caller did not ask for a full backup, and then onto a backup
-- with the newest one's id, whose chain is whole and whose checkpoint libvirt still has, with the VM running, and
-- while the chain is shorter than the limit.
pub decide-IsLayered :
    (host : Host) (bs : List Entry) (running : Bool) (requested : KindRequest)
    (full_every : Option ℕ)
    → (decide host bs running requested full_every).kind ≡ incremental
    → (requested ≢ just full)
      × IsLayered host bs running
          (clamp_full_every full_every)
          (decide host bs running requested full_every)
unfolding decide
decide-IsLayered host bs running (just full) full_every h = absurd (ground arith)
decide-IsLayered host bs running (just incremental) full_every h = (
  λ e. ground arith,
  decide_assessed host bs running (just incremental) (clamp_full_every full_every) h,
)
decide-IsLayered host bs running auto full_every h =
    (λ e. ground arith, decide_assessed host bs running auto (clamp_full_every full_every) h)

-- Whatever is asked for, a backup of the decided kind on top of the list leaves at most as many
-- incrementals there as the limit, which is 60 at most.
pub decide-chain_length :
    (host : Host) (bs : List Entry) (running : Bool) (requested : KindRequest)
    (full_every : Option ℕ) (b : Entry)
    → b.kind ≡ (decide host bs running requested full_every).kind
    → (count_chain_length (b ∷ bs) ≤ clamp_full_every full_every)
      × (clamp_full_every full_every ≤ max_full_every)
unfolding count_chain_length
decide-chain_length host bs running requested full_every b e =
    elim (Kind-cases (decide host bs running requested full_every).kind) [
      | inl f ↦ (ground (arith, e, f), (clamp_full_every_bounds full_every).1)
      | inr i ↦
          let short = (decide-IsLayered host bs running requested full_every i).1.short in
          (ground (arith, e, i, short), (clamp_full_every_bounds full_every).1)
    ]

-- An assessment says "first backup" exactly when the VM runs on a host that can do incrementals
-- and no listed backup has a whole chain: also when there are backups, all broken.
pub assess-first_backup_iff :
    (host : Host) (bs : List Entry) (running : Bool)
    → (assess_incremental_readiness host bs running
        ≡ not_ready (count_chain_length bs) first_backup)
      ↔ ((running ≡ true) × (host.is_backup_supported ≡ true) × All (λ b. b.chain_broken ≡ true) bs)
unfolding assess_incremental_readiness
assess-first_backup_iff host bs running = (
  λ h. elim (Bool-cases running) [
    | inr e ↦ absurd (ground (arith, e, h))
    | inl runs ↦ elim (Bool-cases host.is_backup_supported) [
      | inr e ↦ absurd (ground (arith, runs, e, h))
      | inl supported ↦ elim (Option-cases (find (λ (b : Entry). not b.chain_broken) bs)) [
        | inl e ↦ (
          runs,
          supported,
          All-map _ _ bs (λ b t. ground arith) ((find-none (λ b. not b.chain_broken) bs).0 e),
        )
        | inr (parent, e) ↦ absurd (
            assess_parent-ne-first host (count_chain_length bs) bs parent
              (ground (arith, runs, supported, e, h)))
      ]
    ]
  ],
  λ (runs, supported, broken).
      let nothing =
        (find-none (λ b. not b.chain_broken) bs).1 (All-map _ _ bs (λ b t. ground arith) broken) in
      ground (arith, runs, supported, nothing),
)
