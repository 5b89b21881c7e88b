-- ===== src/Access/RateLimit/Window.antt =====
-- The limit as a caller sees it: how many requests of one key pass within a window.
use virt_pilot.Common.{
  ℕ, ◌+◌, ◌≤◌, ◌≡◌, refl, sym, ap, ◌∙◌, inl, inr, Bool, true, false, Option, none, some, List, [],
  ◌∷◌, ◌++◌, keep, length, if◌then◌else◌, ltb, leb, ◌==◌, arith, Bool-cases, String, same,
  same-cases, length-append,
}
use virt_pilot.Access.RateLimit.{
  Bucket, Options, Buckets, is_recent, Answer, next, too_many, bucket_or_new, knock, middleware,
  collect_bucket, collect, reset,
}

-- What happens to the limiter, in order; a clock that does not go back.
pub data Event : Type 0 where
  request : (key : String) (now : ℕ) → Event
  tick : (now : ℕ) → Event
  forget : (key : String) → Event

abbrev pub step : Options → Event → Buckets → Buckets
step opts (request key now) s = (middleware opts key now s).1
step opts (tick now) s = collect opts now s
step opts (forget key) s = reset key s

abbrev pub passes : Answer → Bool
passes next = true
passes (too_many n) = false

-- The times at which requests of `k` passed, since its last reset.
abbrev pub passed_after : Options → String → Event → Buckets → List ℕ → List ℕ
passed_after opts k (request key now) s h =
    if same key k then (if passes (middleware opts key now s).0 then h ++ now ∷ [] else h) else h
passed_after opts k (tick now) s h = h
passed_after opts k (forget key) s h = if same key k then [] else h

abbrev pub time_after : Event → ℕ → ℕ
time_after (request key now) t = now
time_after (tick now) t = now
time_after (forget key) t = t

-- `Runs opts k t s h`: from a new limiter, at the time `t` it is in `s`, and `h` has passed for `k`.
pub data Runs (opts : Options) (k : String) : ℕ → Buckets → List ℕ → Type 0 where
  begin : Runs opts k 0 (λ key. none) []
  then_do :
      {t : ℕ} {s : Buckets} {h : List ℕ}
      → Runs opts k t s h
      → (e : Event) → t ≤ time_after e t
      → Runs opts k (time_after e t) (step opts e s) (passed_after opts k e s h)

keep-append {ℓ} :
    {A : Type ℓ} (p : A → Bool) (xs ys : List A) → keep p (xs ++ ys) ≡ keep p xs ++ keep p ys
keep-append p [] ys = refl
keep-append p (x ∷ xs) ys = elim (Bool-cases (p x)) [
  | inl e ↦ rw e (ap (λ zs. x ∷ zs) (keep-append p xs ys))
  | inr e ↦ rw e (keep-append p xs ys)
]

keep-keep {ℓ} :
    {A : Type ℓ} (p q : A → Bool) (xs : List A)
    → ((x : A) → p x ≡ true → q x ≡ true)
    → keep p (keep q xs) ≡ keep p xs
keep-keep p q [] h = refl
keep-keep p q (x ∷ xs) h = elim (Bool-cases (p x)) [
  | inl e ↦ rw (h x e, e) (ap (λ zs. x ∷ zs) (keep-keep p q xs h))
  | inr e ↦ elim (Bool-cases (q x)) [
    | inl t ↦ rw (t, e) (keep-keep p q xs h)
    | inr t ↦ rw (t, e) (keep-keep p q xs h)
  ]
]

length-keep-le {ℓ} : {A : Type ℓ} (p : A → Bool) (xs : List A) → length (keep p xs) ≤ length xs
length-keep-le p [] = omega arith
length-keep-le p (x ∷ xs) = elim (Bool-cases (p x)) [
  | inl e ↦ rw e (omega (arith, length-keep-le p xs))
  | inr e ↦ rw e (omega (arith, length-keep-le p xs))
]

recent-earlier :
    (opts : Options) (m n t : ℕ) → n ≤ m → is_recent opts m t ≡ true → is_recent opts n t ≡ true
recent-earlier opts m n t le e = ground (arith, e, le)

-- From `t` on the bucket counts what has passed.
record Counts (opts : Options) (t : ℕ) (b : Bucket) (h : List ℕ) : Type 0 where
  same_hits : (m : ℕ) → t ≤ m → keep (is_recent opts m) b.hits ≡ keep (is_recent opts m) h
  few : length b.hits ≤ opts.max

Counts-clean :
    (opts : Options) (t now : ℕ) (b : Bucket) (h : List ℕ) (blocked : ℕ)
    → Counts opts t b h
    → t ≤ now
    → Counts opts now
        (record { hits = keep (is_recent opts now) b.hits; blocked_until = blocked })
        h
Counts-clean opts t now b h blocked c le = record {
  same_hits = λ m later.
      keep-keep (is_recent opts m) (is_recent opts now) b.hits
        (λ x e. recent-earlier opts m now x later e)
      ∙ c.same_hits m (omega (arith, le, later));
  few = omega (arith, length-keep-le (is_recent opts now) b.hits, c.few);
}

Counts-later :
    (opts : Options) (t now : ℕ) (b : Bucket) (h : List ℕ)
    → Counts opts t b h
    → t ≤ now
    → Counts opts now b h
Counts-later opts t now b h c le = record {
  same_hits = λ m later. c.same_hits m (omega (arith, le, later));
  few = c.few;
}

knock-Counts :
    (opts : Options) (t now : ℕ) (b : Bucket) (h : List ℕ)
    → Counts opts t b h
    → t ≤ now
    → Counts opts now
        (knock opts now b).1
        (if passes (knock opts now b).0 then h ++ now ∷ [] else h)
unfolding knock
knock-Counts opts t now b h c le = elim (Bool-cases (ltb now b.blocked_until)) [
  | inl e ↦ rw e (Counts-later opts t now b h c le)
  | inr e ↦ elim (Bool-cases (leb opts.max (length (keep (is_recent opts now) b.hits)))) [
    | inl full ↦ rw (e, full) (Counts-clean opts t now b h (now + opts.block_ms) c le)
    | inr room ↦
        rw (e, room)
          (record {
            same_hits = λ m later.
                keep-append (is_recent opts m) (keep (is_recent opts now) b.hits) (now ∷ [])
                ∙ ap (λ zs. zs ++ keep (is_recent opts m) (now ∷ []))
                    ((Counts-clean opts t now b h 0 c le).same_hits m later)
                ∙ sym (keep-append (is_recent opts m) h (now ∷ []));
            few = ground (arith, room, length-append (keep (is_recent opts now) b.hits) (now ∷ []));
          })
  ]
]

length-zero {ℓ} : {A : Type ℓ} (xs : List A) → (length xs == 0) ≡ true → xs ≡ []
length-zero [] e = refl
length-zero (x ∷ xs) e = absurd (ground (arith, e))

-- A bucket that is dropped counted nothing.
collect-Counts :
    (opts : Options) (t now : ℕ) (o : Option Bucket) (h : List ℕ)
    → Counts opts t (bucket_or_new o) h
    → t ≤ now
    → Counts opts now (bucket_or_new (collect_bucket opts now o)) h
collect-Counts opts t now none h c le = Counts-later opts t now (bucket_or_new none) h c le
collect-Counts opts t now (some b) h c le =
    let cleaned = Counts-clean opts t now b h b.blocked_until c le in
    elim (Bool-cases (length (keep (is_recent opts now) b.hits) == 0)) [
      | inr e ↦ rw e cleaned
      | inl e ↦ elim (Bool-cases (ltb b.blocked_until now)) [
        | inr u ↦ rw (e, u) cleaned
        | inl u ↦
            rw (e, u)
              (record {
                same_hits = λ m later.
                    ap (keep (is_recent opts m))
                      (sym (length-zero (keep (is_recent opts now) b.hits) e))
                    ∙ cleaned.same_hits m later;
                few = omega arith;
              })
      ]
    ]

none-Counts : (opts : Options) (t : ℕ) → Counts opts t (bucket_or_new none) []
none-Counts opts t = record { same_hits = λ m later. refl; few = omega arith }

step-Counts :
    (opts : Options) (k : String) (t : ℕ) (e : Event) (s : Buckets) (h : List ℕ)
    → t ≤ time_after e t
    → Counts opts t (bucket_or_new (s k)) h
    → Counts opts (time_after e t) (bucket_or_new (step opts e s k)) (passed_after opts k e s h)
unfolding middleware collect reset
step-Counts opts k t (request key now) s h le c = elim (same-cases key k) [
  | inl (one, e) ↦ rw (e, one) (knock-Counts opts t now (bucket_or_new (s k)) h c le)
  | inr (other, e) ↦ rw e (Counts-later opts t now (bucket_or_new (s k)) h c le)
]
step-Counts opts k t (tick now) s h le c = collect-Counts opts t now (s k) h c le
step-Counts opts k t (forget key) s h le c = elim (same-cases key k) [
  | inl (one, e) ↦ rw e (none-Counts opts t)
  | inr (other, e) ↦ rw e c
]

Runs-Counts :
    (opts : Options) (k : String) (t : ℕ) (s : Buckets) (h : List ℕ)
    → Runs opts k t s h
    → Counts opts t (bucket_or_new (s k)) h
Runs-Counts opts k t s h begin = none-Counts opts 0
Runs-Counts opts k t s h (then_do {t = u} {s = v} {h = g} r e le) =
    step-Counts opts k u e v g le (Runs-Counts opts k u v g r)

-- Whatever is asked, cleaned up and reset, with a clock that does not go back: at any time no more than `max`
-- requests of a key have passed within the last window, since the key's last reset.
pub Runs-limited :
    (opts : Options) (k : String) (t : ℕ) (s : Buckets) (h : List ℕ)
    → Runs opts k t s h
    → length (keep (is_recent opts t) h) ≤ opts.max
Runs-limited opts k t s h r =
    let c = Runs-Counts opts k t s h r in
    omega (
      arith,
      ap length (c.same_hits t (omega arith)),
      length-keep-le (is_recent opts t) (bucket_or_new (s k)).hits,
      c.few,
    )
