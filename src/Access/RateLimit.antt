-- ===== src/Access/RateLimit.antt =====
-- `createRateLimiter` of packages/backend/src/lib/rateLimit.ts: the middleware, the periodic clean-up and `reset`.
-- Times are milliseconds since the epoch; a difference that the source has below zero is 0 here, inside any window.
pub mod Window
use virt_pilot.Common.{
  ℕ, ◌+◌, ◌-◌, ◌/◌, Bool, true, false, not, ◌&&◌, Option, none, some, List, [], ◌∷◌, ◌++◌, keep,
  length, if◌then◌else◌, ltb, leb, ◌==◌, String, same,
}

pub record Bucket : Type 0 where
  pub hits : List ℕ
  pub blocked_until : ℕ

pub record Options : Type 0 where
  pub window_ms : ℕ
  pub max : ℕ
  pub block_ms : ℕ

-- `Map<string, Bucket>`
abbrev pub Buckets : Type 0
Buckets = String → Option Bucket

abbrev pub set_bucket : String → Option Bucket → Buckets → Buckets
set_bucket key b s k = if same key k then b else s k

abbrev pub is_recent : Options → ℕ → ℕ → Bool
is_recent opts now t = ltb (now - t) opts.window_ms

-- `next()`, or 429 with the seconds to wait.
pub data Answer : Type 0 where
  next : Answer
  too_many : (retry_after : ℕ) → Answer

abbrev pub bucket_or_new : Option Bucket → Bucket
bucket_or_new none = record { hits = []; blocked_until = 0 }
bucket_or_new (some b) = b

-- `Math.ceil(ms / 1000)`
abbrev pub ceil_seconds : ℕ → ℕ
ceil_seconds ms = (ms + 999) / 1000

-- The middleware on the bucket of the request's key.
unfoldable pub knock : Options → ℕ → Bucket → Answer × Bucket
knock opts now b =
    if ltb now b.blocked_until
    then (too_many (ceil_seconds (b.blocked_until - now)), b)
    else (let hits = keep (is_recent opts now) b.hits in
        if leb opts.max (length hits)
        then (
          too_many (ceil_seconds opts.block_ms),
          record { hits = hits; blocked_until = now + opts.block_ms },
        )
        else (next, record b { hits = hits ++ now ∷ [] }))

unfoldable pub middleware : Options → String → ℕ → Buckets → Answer × Buckets
unfolding knock
middleware opts key now s =
    let (answer, b) = knock opts now (bucket_or_new (s key)) in (answer, set_bucket key (some b) s)

abbrev pub collect_bucket : Options → ℕ → Option Bucket → Option Bucket
collect_bucket opts now none = none
collect_bucket opts now (some b) =
    let hits = keep (is_recent opts now) b.hits in
    if (length hits == 0) && ltb b.blocked_until now then none else some (record b { hits = hits })

-- The `setInterval` callback.
unfoldable pub collect : Options → ℕ → Buckets → Buckets
collect opts now s k = collect_bucket opts now (s k)

unfoldable pub reset : String → Buckets → Buckets
reset key s = set_bucket key none s
