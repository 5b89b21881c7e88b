-- ===== src/Access/TokenStore.antt =====
-- packages/backend/src/lib/tokenStore.ts: the list of revoked tokens in memory and its table. Seconds since the epoch.
-- SHA-256 is a parameter.
pub mod Lives
use virt_pilot.Common.{
  ℕ, Bool, true, false, not, ◌&&◌, Option, none, some, if◌then◌else◌, ltb, String, same,
}

-- By hash: `Map<string, Entry>`, and the table with its primary key.
abbrev pub Revocations : Type 0
Revocations = String → Option ℕ

abbrev pub set_entry : String → ℕ → Revocations → Revocations
set_entry hash exp r h = if same hash h then some exp else r h

-- Less the entries with `exp < now`.
abbrev pub unexpired_entry : ℕ → Option ℕ → Option ℕ
unexpired_entry now none = none
unexpired_entry now (some exp) = if ltb exp now then none else some exp

abbrev pub or_else_entry : Option ℕ → Option ℕ → Option ℕ
or_else_entry none old = old
or_else_entry (some exp) old = some exp

pub record TokenStore : Type 0 where
  pub revoked : Revocations
  pub table : Revocations
  pub hydrated : Bool
  pub db_unavailable : Bool

-- What the database answers to one use: whether `getDb` opens it, and whether the statement succeeds.
pub record Db : Type 0 where
  pub opens : Bool
  pub succeeds : Bool

-- `db()` is not null.
abbrev pub has_db : Db → TokenStore → Bool
has_db d s = not s.db_unavailable && d.opens

-- `db()`: a failure to open it is remembered.
unfoldable pub open_db : Db → TokenStore → TokenStore
open_db d s =
    if s.db_unavailable then s else if d.opens then s else record s { db_unavailable = true }

-- The rows with `exp >= now` go into the cache.
unfoldable pub load_rows : ℕ → TokenStore → TokenStore
load_rows now s = record s {
  revoked = λ h. or_else_entry (unexpired_entry now (s.table h)) (s.revoked h);
}

unfoldable pub hydrate : ℕ → Db → TokenStore → TokenStore
unfolding open_db load_rows
hydrate now d s =
    if s.hydrated
    then s
    else (let t = open_db d (record s { hydrated = true }) in
        if has_db d s && d.succeeds then load_rows now t else t)

-- The rest of `revokeToken`: the cache, then the table where the database takes it.
unfoldable pub record_revocation : Db → String → ℕ → TokenStore → TokenStore
unfolding open_db
record_revocation d hash exp t =
    let u = open_db d (record t { revoked = set_entry hash exp t.revoked }) in
    if has_db d t && d.succeeds then record u { table = set_entry hash exp u.table } else u

abbrev pub is_given : Option ℕ → Bool
is_given none = false
is_given (some exp) = true

module _ (hash_token : String → String) where
  unfoldable pub revoke_token : ℕ → Db → Db → String → ℕ → TokenStore → TokenStore
  revoke_token now d d' token exp s = record_revocation d' (hash_token token) exp (hydrate now d s)

  unfoldable pub is_revoked : ℕ → Db → String → TokenStore → Bool × TokenStore
  is_revoked now d token s = let t = hydrate now d s in (is_given (t.revoked (hash_token token)), t)

-- The `setInterval` callback.
unfoldable pub sweep : ℕ → Db → TokenStore → TokenStore
unfolding open_db
sweep now d s =
    let t = open_db d (record s { revoked = λ h. unexpired_entry now (s.revoked h) }) in
    if has_db d s && d.succeeds
    then record t { table = λ h. unexpired_entry now (s.table h) }
    else t

-- A restart keeps only the table.
abbrev pub restart : TokenStore → TokenStore
restart s = record s { revoked = λ h. none; hydrated = false; db_unavailable = false }
