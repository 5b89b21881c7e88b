-- ===== src/Forwards/Valid.antt =====
-- What holds of the store between two operations of portForwardService, and the lemmas that keep it.
use virt_pilot.Common.{
  ◌≡◌, refl, sym, ◌∙◌, inl, inr, Bool, true, false, not, none, some, List, [], ◌∷◌, ◌++◌, keep,
  find, arith, String, same, same→eq, same_refl, All, All-map, All-snoc, Bool-cases,
}
use virt_pilot.Forwards.{
  Protocol, tcp, udp, same_protocol, PortForward, Firewall, Store, is_on_port, is_for_nic, some_of,
  release_if_unused, release_all, release_chosen,
}
use virt_pilot.Forwards.Reserve.{DhcpReservation, is_for}

-- Two forwards of a list never share a port of the host.
abbrev pub PortsDistinct : List PortForward → Type 0
PortsDistinct [] = Unit
PortsDistinct (f ∷ fs) =
    All (λ g. is_on_port f.host_port f.protocol g ≡ false) fs × PortsDistinct fs

-- The address a forward leads to is locked for its NIC.
abbrev pub IsBacked : List DhcpReservation → PortForward → Type 0
IsBacked rs f =
    (r : DhcpReservation) × (find (is_for f.network_id f.mac) rs ≡ some r) × (r.ip ≡ f.vm_ip)

pub record IsValid {ℓ} {F : Type ℓ} (firewall : Firewall F) (s : Store F) : Type ℓ where
  pub ports : PortsDistinct s.forwards
  pub backed : All (IsBacked s.reservations) s.forwards

module _ {ℓ} {A : Type ℓ} where
  pub find-All : (p : A → Bool) (xs : List A) → find p xs ≡ none → All (λ x. p x ≡ false) xs
  find-All p [] e = tt
  find-All p (x ∷ xs) e = elim (Bool-cases (p x)) [
    | inl t ↦ absurd (ground (arith, e, t))
    | inr t ↦ (t, find-All p xs (ground (arith, e, t)))
  ]

  pub find-append :
      (p : A → Bool) (xs ys : List A) (y : A) → find p xs ≡ some y → find p (xs ++ ys) ≡ some y
  find-append p [] ys y e = absurd (ground (arith, e))
  find-append p (x ∷ xs) ys y e = elim (Bool-cases (p x)) [
    | inl t ↦ rw t (rw t at e)
    | inr t ↦ rw t (find-append p xs ys y (rw t at e))
  ]

  pub find-snoc :
      (p : A → Bool) (xs : List A) (y : A)
      → find p xs ≡ none
      → p y ≡ true
      → find p (xs ++ y ∷ []) ≡ some y
  find-snoc p [] y e t = rw t refl
  find-snoc p (x ∷ xs) y e t = elim (Bool-cases (p x)) [
    | inl u ↦ absurd (ground (arith, e, u))
    | inr u ↦ rw u (find-snoc p xs y (rw u at e) t)
  ]

  pub find-keep :
      (p q : A → Bool) (xs : List A)
      → ((x : A) → p x ≡ true → q x ≡ true)
      → find p (keep q xs) ≡ find p xs
  find-keep p q [] h = refl
  find-keep p q (x ∷ xs) h = elim (Bool-cases (p x)) [
    | inl t ↦ rw (h x t, t) refl
    | inr t ↦ elim (Bool-cases (q x)) [
      | inl u ↦ rw (u, t) (find-keep p q xs h)
      | inr u ↦ rw (u, t) (find-keep p q xs h)
    ]
  ]

  pub All-keep {κ} : (P : A → Type κ) (q : A → Bool) (xs : List A) → All P xs → All P (keep q xs)
  All-keep P q [] h = tt
  All-keep P q (x ∷ xs) h = elim (Bool-cases (q x)) [
    | inl t ↦ rw t (h.0, All-keep P q xs h.1)
    | inr t ↦ rw t (All-keep P q xs h.1)
  ]

pub PortsDistinct-keep :
    (q : PortForward → Bool) (fs : List PortForward) → PortsDistinct fs → PortsDistinct (keep q fs)
PortsDistinct-keep q [] h = tt
PortsDistinct-keep q (f ∷ fs) h = elim (Bool-cases (q f)) [
  | inl t ↦ rw t (
    All-keep (λ g. is_on_port f.host_port f.protocol g ≡ false) q fs h.0,
    PortsDistinct-keep q fs h.1,
  )
  | inr t ↦ rw t (PortsDistinct-keep q fs h.1)
]

same_protocol_comm : (p q : Protocol) → same_protocol p q ≡ same_protocol q p
same_protocol_comm tcp tcp = refl
same_protocol_comm tcp udp = refl
same_protocol_comm udp tcp = refl
same_protocol_comm udp udp = refl

is_on_port_comm :
    (f g : PortForward)
    → is_on_port f.host_port f.protocol g ≡ false
    → is_on_port g.host_port g.protocol f ≡ false
is_on_port_comm f g e = ground (arith, e, same_protocol_comm f.protocol g.protocol)

pub PortsDistinct-snoc :
    (fs : List PortForward) (f : PortForward)
    → PortsDistinct fs
    → All (λ g. is_on_port f.host_port f.protocol g ≡ false) fs
    → PortsDistinct (fs ++ f ∷ [])
PortsDistinct-snoc [] f h free = (tt, tt)
PortsDistinct-snoc (g ∷ fs) f h free = (
  All-snoc (λ x. is_on_port g.host_port g.protocol x ≡ false) fs f h.0 (is_on_port_comm f g free.0),
  PortsDistinct-snoc fs f h.1 free.1,
)

is_for-eq :
    (f : PortForward) (network_id mac : String) (r : DhcpReservation)
    → is_for f.network_id f.mac r ≡ true
    → is_for network_id mac r ≡ true
    → is_for_nic network_id mac f ≡ true
is_for-eq f network_id mac r h e =
    let h' : (same r.network_id f.network_id ≡ true) × (same r.mac f.mac ≡ true) =
      ground (arith, h) in
    let e' : (same r.network_id network_id ≡ true) × (same r.mac mac ≡ true) = ground (arith, e) in
    let n = sym (same→eq r.network_id f.network_id h'.0) ∙ same→eq r.network_id network_id e'.0 in
    let m = sym (same→eq r.mac f.mac h'.1) ∙ same→eq r.mac mac e'.1 in
    rw (n, m, same_refl network_id, same_refl mac) refl

release-find :
    (network_id mac : String) (rs : List DhcpReservation) (f : PortForward)
    → is_for_nic network_id mac f ≡ false
    → find (is_for f.network_id f.mac) (keep (λ r. not (is_for network_id mac r)) rs)
      ≡ find (is_for f.network_id f.mac) rs
release-find network_id mac rs f e =
    find-keep (is_for f.network_id f.mac) (λ r. not (is_for network_id mac r)) rs
      (λ r t. elim (Bool-cases (is_for network_id mac r)) [
        | inl u ↦ absurd (ground (arith, e, is_for-eq f network_id mac r t u))
        | inr u ↦ ground (arith, u)
      ])

some_of-All :
    (p : PortForward → Bool) (fs : List PortForward)
    → some_of p fs ≡ false
    → All (λ f. p f ≡ false) fs
some_of-All p [] e = tt
some_of-All p (f ∷ fs) e = (ground (arith, e), some_of-All p fs (ground (arith, e)))

release_kept :
    (network_id mac : String) (fs : List PortForward) (rs : List DhcpReservation)
    → some_of (is_for_nic network_id mac) fs ≡ true
    → release_if_unused network_id mac fs rs ≡ rs
unfolding release_if_unused
release_kept network_id mac fs rs e = rw e refl

pub release_gone :
    (network_id mac : String) (fs : List PortForward) (rs : List DhcpReservation)
    → some_of (is_for_nic network_id mac) fs ≡ false
    → release_if_unused network_id mac fs rs ≡ keep (λ r. not (is_for network_id mac r)) rs
unfolding release_if_unused
release_gone network_id mac fs rs e = rw e refl

kept-IsBacked :
    (q : DhcpReservation → Bool) (rs : List DhcpReservation) (fs : List PortForward)
    → All
        (λ f. find (is_for f.network_id f.mac) (keep q rs) ≡ find (is_for f.network_id f.mac) rs)
        fs
    → All (IsBacked rs) fs
    → All (IsBacked (keep q rs)) fs
kept-IsBacked q rs [] e h = tt
kept-IsBacked q rs (f ∷ fs) e h =
    let (r, found, ip) = h.0 in ((r, e.0 ∙ found, ip), kept-IsBacked q rs fs e.1 h.1)

-- A release leaves every forward of the list it was told of its address.
pub release_if_unused-IsBacked :
    (network_id mac : String) (fs : List PortForward) (rs : List DhcpReservation)
    → All (IsBacked rs) fs
    → All (IsBacked (release_if_unused network_id mac fs rs)) fs
unfolding release_if_unused
release_if_unused-IsBacked network_id mac fs rs h =
    elim (Bool-cases (some_of (is_for_nic network_id mac) fs)) [
      | inl e ↦ rw (release_kept network_id mac fs rs e) h
      | inr e ↦ rw (release_gone network_id mac fs rs e) (
          kept-IsBacked (λ r. not (is_for network_id mac r)) rs fs
            (All-map (λ f. is_for_nic network_id mac f ≡ false)
              (λ f.
                find (is_for f.network_id f.mac) (keep (λ r. not (is_for network_id mac r)) rs)
                ≡ find (is_for f.network_id f.mac) rs)
              fs (release-find network_id mac rs) (some_of-All (is_for_nic network_id mac) fs e))
            h)
    ]

-- So does each further one of a loop.
pub release_all-IsBacked {ℓ} :
    {F : Type ℓ} (firewall : Firewall F) (fs mine : List PortForward) (rs : List DhcpReservation)
    → All (IsBacked rs) fs
    → All (IsBacked (release_all firewall fs mine rs)) fs
release_all-IsBacked firewall fs [] rs h = h
release_all-IsBacked firewall fs (f ∷ mine) rs h =
    release_all-IsBacked firewall fs mine (release_if_unused f.network_id f.mac fs rs)
      (release_if_unused-IsBacked f.network_id f.mac fs rs h)

pub release_chosen-IsBacked {ℓ} :
    {F : Type ℓ} (firewall : Firewall F) (chosen : DhcpReservation → Bool) (fs : List PortForward)
    (read rs : List DhcpReservation)
    → All (IsBacked rs) fs
    → All (IsBacked (release_chosen firewall chosen fs read rs)) fs
release_chosen-IsBacked firewall chosen fs [] rs h = h
release_chosen-IsBacked firewall chosen fs (r ∷ read) rs h = elim (Bool-cases (chosen r)) [
  | inl e ↦ rw e (
      release_chosen-IsBacked firewall chosen fs read (release_if_unused r.network_id r.mac fs rs)
        (release_if_unused-IsBacked r.network_id r.mac fs rs h))
  | inr e ↦ rw e (release_chosen-IsBacked firewall chosen fs read rs h)
]
