-- ===== src/Access/TokenStore/Lives.antt =====
-- How long a revocation lives.
use virt_pilot.Common.{
  ℕ, ◌≤◌, ◌≡◌, refl, sym, ap, subst, ◌∙◌, inl, inr, true, false, Option, some, arith, Bool-cases,
  String, same-cases, same_refl,
}
use virt_pilot.Access.TokenStore.{
  Revocations, set_entry, unexpired_entry, or_else_entry, TokenStore, Db, open_db, load_rows,
  hydrate, record_revocation, is_given, revoke_token, is_revoked, sweep, restart,
}

-- The table has the hash until `exp`, and the cache too once it has been read.
pub record Keeps (hash : String) (exp : ℕ) (s : TokenStore) : Type 0 where
  pub in_table : s.table hash ≡ some exp
  pub in_cache : s.hydrated ≡ true → s.revoked hash ≡ some exp
  pub db : s.db_unavailable ≡ false

-- The database works.
abbrev pub Works : Db → Type 0
Works d = (d.opens ≡ true) × (d.succeeds ≡ true)

hydrate_done : (now : ℕ) (d : Db) (s : TokenStore) → s.hydrated ≡ true → hydrate now d s ≡ s
unfolding hydrate
hydrate_done now d s e = ground (arith, e)

hydrate_loads :
    (now : ℕ) (d : Db) (s : TokenStore)
    → s.hydrated ≡ false
    → s.db_unavailable ≡ false
    → Works d
    → hydrate now d s ≡ load_rows now (record s { hydrated = true })
unfolding hydrate open_db
hydrate_loads now d s e db (o, w) = ground (arith, e, db, o, w)

unexpired_entry-some :
    (now exp : ℕ) (o : Option ℕ) → o ≡ some exp → now ≤ exp → unexpired_entry now o ≡ some exp
unexpired_entry-some now exp o e le = ap (unexpired_entry now) e ∙ ground (arith, le)

hydrate-Keeps :
    (hash : String) (exp now : ℕ) (d : Db) (s : TokenStore)
    → Works d
    → now ≤ exp
    → Keeps hash exp s
    → Keeps hash exp (hydrate now d s) × ((hydrate now d s).hydrated ≡ true)
unfolding load_rows
hydrate-Keeps hash exp now d s works le k = elim (Bool-cases s.hydrated) [
  | inl e ↦
      let same_store = hydrate_done now d s e in
      (subst (Keeps hash exp) (sym same_store) k, ap (λ t. t.hydrated) same_store ∙ e)
  | inr e ↦
      let loaded = hydrate_loads now d s e k.db works in
      let kept : Keeps hash exp (load_rows now (record s { hydrated = true })) = record {
        in_table = k.in_table;
        in_cache = λ t.
            ap (λ o. or_else_entry o (s.revoked hash))
              (unexpired_entry-some now exp (s.table hash) k.in_table le);
        db = k.db;
      } in
      (subst (Keeps hash exp) (sym loaded) kept, ap (λ t. t.hydrated) loaded)
]

hydrate-db :
    (now : ℕ) (d : Db) (s : TokenStore)
    → Works d
    → s.db_unavailable ≡ false
    → (hydrate now d s).db_unavailable ≡ false
unfolding load_rows
hydrate-db now d s works db = elim (Bool-cases s.hydrated) [
  | inl e ↦ ap (λ t. t.db_unavailable) (hydrate_done now d s e) ∙ db
  | inr e ↦ ap (λ t. t.db_unavailable) (hydrate_loads now d s e db works) ∙ db
]

record_writes :
    (d : Db) (hash : String) (exp : ℕ) (t : TokenStore)
    → Works d
    → t.db_unavailable ≡ false
    → record_revocation d hash exp t
      ≡ record t { revoked = set_entry hash exp t.revoked; table = set_entry hash exp t.table }
unfolding record_revocation open_db
record_writes d hash exp t (o, w) db = ground (arith, o, w, db)

set_entry-same : (hash : String) (exp : ℕ) (r : Revocations) → set_entry hash exp r hash ≡ some exp
set_entry-same hash exp r = ground (arith, same_refl hash)

-- Another token's revocation leaves this one, and one of the same hash has the same expiry.
set_entry-keeps :
    (hash other : String) (exp exp' : ℕ) (r : Revocations)
    → (other ≡ hash → exp' ≡ exp)
    → r hash ≡ some exp
    → set_entry other exp' r hash ≡ some exp
set_entry-keeps hash other exp exp' r alike e = elim (same-cases other hash) [
  | inl (one, t) ↦ ground (arith, t, alike one)
  | inr (two, t) ↦ ground (arith, t, e)
]

sweep_writes :
    (now : ℕ) (d : Db) (s : TokenStore)
    → Works d
    → s.db_unavailable ≡ false
    → sweep now d s ≡ record s {
      revoked = λ h. unexpired_entry now (s.revoked h);
      table = λ h. unexpired_entry now (s.table h);
    }
unfolding sweep open_db
sweep_writes now d s (o, w) db = ground (arith, o, w, db)

module _ (hash_token : String → String) where
  -- What the server does with its list while the database works, up to a time.
  pub data Later (until : ℕ) (hash : String) (exp : ℕ) : TokenStore → TokenStore → Type 0 where
    at_once : {s : TokenStore} → Later until hash exp s s
    check_then :
        {s u : TokenStore} (now : ℕ) (d : Db) (token : String)
        → now ≤ until
        → Works d
        → Later until hash exp (is_revoked hash_token now d token s).1 u
        → Later until hash exp s u
    revoke_then :
        {s u : TokenStore} (now : ℕ) (d d' : Db) (token : String) (exp' : ℕ)
        → now ≤ until
        → Works d
        → Works d'
        → (hash_token token ≡ hash → exp' ≡ exp)
        → Later until hash exp (revoke_token hash_token now d d' token exp' s) u
        → Later until hash exp s u
    sweep_then :
        {s u : TokenStore} (now : ℕ) (d : Db)
        → now ≤ until
        → Works d
        → Later until hash exp (sweep now d s) u
        → Later until hash exp s u
    restart_then :
        {s u : TokenStore} → Later until hash exp (restart s) u → Later until hash exp s u

  revoke_token-Keeps :
      (hash : String) (exp now : ℕ) (d d' : Db) (token : String) (exp' : ℕ) (s : TokenStore)
      → Works d
      → Works d'
      → now ≤ exp
      → (hash_token token ≡ hash → exp' ≡ exp)
      → Keeps hash exp s
      → Keeps hash exp (revoke_token hash_token now d d' token exp' s)
  unfolding revoke_token
  revoke_token-Keeps hash exp now d d' token exp' s works works' le alike k =
      let (t, up) = hydrate-Keeps hash exp now d s works le k in
      subst (Keeps hash exp)
        (sym (record_writes d' (hash_token token) exp' (hydrate now d s) works' t.db))
        (record {
          in_table =
              set_entry-keeps hash (hash_token token) exp exp' (hydrate now d s).table alike
                t.in_table;
          in_cache = λ e.
              set_entry-keeps hash (hash_token token) exp exp' (hydrate now d s).revoked alike
                (t.in_cache up);
          db = t.db;
        })

  Later-Keeps :
      (hash : String) (exp : ℕ) (s u : TokenStore)
      → Later exp hash exp s u
      → Keeps hash exp s
      → Keeps hash exp u
  unfolding is_revoked
  Later-Keeps hash exp s u at_once k = k
  Later-Keeps hash exp s u (check_then now d token le works rest) k =
      Later-Keeps hash exp _ u rest (hydrate-Keeps hash exp now d s works le k).0
  Later-Keeps hash exp s u (revoke_then now d d' token exp' le works works' alike rest) k =
      Later-Keeps hash exp _ u rest
        (revoke_token-Keeps hash exp now d d' token exp' s works works' le alike k)
  Later-Keeps hash exp s u (sweep_then now d le works rest) k = Later-Keeps hash exp _ u rest (
      subst (Keeps hash exp) (sym (sweep_writes now d s works k.db)) (record {
        in_table = unexpired_entry-some now exp (s.table hash) k.in_table le;
        in_cache = λ e. unexpired_entry-some now exp (s.revoked hash) (k.in_cache e) le;
        db = k.db;
      }))
  Later-Keeps hash exp s u (restart_then rest) k =
      Later-Keeps hash exp _ u rest
        (record { in_table = k.in_table; in_cache = λ e. absurd (ground (arith, e)); db = refl })

  -- While the database works, a token that was revoked is refused through checks, other revocations, sweeps and
  -- restarts, until its own expiry; a token of the same hash has the same expiry.
  pub revoke_token-lasts :
      (now later exp : ℕ) (d d' d'' : Db) (token : String) (s u : TokenStore)
      → Works d
      → Works d'
      → Works d''
      → s.db_unavailable ≡ false
      → later ≤ exp
      → Later exp (hash_token token) exp (revoke_token hash_token now d d' token exp s) u
      → (is_revoked hash_token later d'' token u).0 ≡ true
  unfolding revoke_token is_revoked
  revoke_token-lasts now later exp d d' d'' token s u works works' works'' db le run =
      let hash = hash_token token in
      let t = hydrate now d s in
      let written = record_writes d' hash exp t works' (hydrate-db now d s works db) in
      let kept : Keeps hash exp (record_revocation d' hash exp t) =
        subst (Keeps hash exp) (sym written) (record {
          in_table = set_entry-same hash exp t.table;
          in_cache = λ e. set_entry-same hash exp t.revoked;
          db = hydrate-db now d s works db;
        }) in
      let (k, up) =
        hydrate-Keeps hash exp later d'' u works'' le (Later-Keeps hash exp _ u run kept) in
      ap is_given (k.in_cache up)
