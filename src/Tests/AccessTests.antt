-- ===== src/Tests/AccessTests.antt =====
-- A limiter of one request a second, and a token that is revoked over a restart.
use Prim.Native.String.{String}
use virt_pilot.Common.{ℕ, ◌≤◌, ◌≡◌, refl, true, false, none, List, [], ◌∷◌, keep, length, arith}
use virt_pilot.Access.RateLimit.{Options, Buckets, is_recent, middleware, knock}
use virt_pilot.Access.RateLimit.Window.{
  request, step, passed_after, Runs, begin, then_do, Runs-limited,
}
use virt_pilot.Access.TokenStore.{TokenStore, Db, revoke_token, is_revoked, restart}
use virt_pilot.Access.TokenStore.Lives.{Later, at_once, restart_then, revoke_token-lasts}

abbrev opts : Options
opts = record { window_ms = 1000; max = 1; block_ms = 5000 }

abbrev no_buckets : Buckets
no_buckets key = none

abbrev after_first : Buckets
after_first = step opts (request "a" 10) no_buckets

abbrev passed_first : List ℕ
passed_first = passed_after opts "a" (request "a" 10) no_buckets []

abbrev after_second : Buckets
after_second = step opts (request "a" 20) after_first

abbrev passed_second : List ℕ
passed_second = passed_after opts "a" (request "a" 20) after_first passed_first

second-passed : passed_second ≡ 10 ∷ []
unfolding middleware knock
second-passed = refl

two_requests : Runs opts "a" 20 after_second passed_second
two_requests = then_do (then_do begin (request "a" 10) (omega arith)) (request "a" 20) (omega arith)

Runs-limited_example : length (keep (is_recent opts 20) passed_second) ≤ opts.max
Runs-limited_example = Runs-limited opts "a" 20 after_second passed_second two_requests

abbrev hash_token : String → String
hash_token token = token

abbrev db : Db
db = record { opens = true; succeeds = true }

abbrev store : TokenStore
store = record { revoked = λ h. none; table = λ h. none; hydrated = false; db_unavailable = false }

abbrev revoked_store : TokenStore
revoked_store = revoke_token hash_token 100 db db "t" 500 store

abbrev restarted : Later hash_token 500 "t" 500 revoked_store (restart revoked_store)
restarted = restart_then at_once

revoke_token-lasts_example : (is_revoked hash_token 300 db "t" (restart revoked_store)).0 ≡ true
revoke_token-lasts_example =
    revoke_token-lasts hash_token 100 300 500 db db db "t" store (restart revoked_store)
      (refl, refl) (refl, refl) (refl, refl) refl (omega arith) restarted
