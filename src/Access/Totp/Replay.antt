-- ===== src/Access/Totp/Replay.antt =====
-- packages/backend/src/lib/totpReplay.ts, and the route `/verify-totp` of packages/backend/src/routes/auth.ts behind its rate limit.
use virt_pilot.Common.{
  ℕ, ◌-◌, Bool, true, false, not, ◌||◌, Option, none, some, List, [], ◌∷◌, ◌++◌, keep,
  if◌then◌else◌, ltb,
}
use virt_pilot.Access.Auth.{Client, AllowEntry, is_ip_allowed}
use virt_pilot.Access.Totp.Base32.{without_spaces}
use virt_pilot.Access.Totp.Code.{same_codes, verify_totp}

-- The map `used`: a secret with a code, and when the code was accepted.
abbrev pub Used : Type 0
Used = List (List ℕ × ℕ)

abbrev pub key_of : List ℕ → List ℕ → List ℕ
key_of secret code = secret ++ (b':' ∷ code)

unfoldable pub used_at : List ℕ → Used → Option ℕ
used_at k [] = none
used_at k ((j, at) ∷ used) = if same_codes j k then some at else used_at k used

abbrev pub is_some : Option ℕ → Bool
is_some none = false
is_some (some at) = true

unfoldable pub is_replay : List ℕ → List ℕ → Used → Bool
is_replay secret code used = is_some (used_at (key_of secret code) used)

-- `Map.prototype.set`
unfoldable pub put : List ℕ → ℕ → Used → Used
put k at [] = (k, at) ∷ []
put k at ((j, old) ∷ used) = if same_codes j k then (j, at) ∷ used else (j, old) ∷ put k at used

unfoldable pub mark_used : List ℕ → List ℕ → ℕ → Used → Used
mark_used secret code now used = put (key_of secret code) now used

-- The timer's round.
unfoldable pub sweep_used : ℕ → Used → Used
sweep_used now used = keep (λ e. not (ltb 120000 (now - e.1))) used

-- The fields of the settings that the route reads.
pub record Settings : Type 0 where
  pub totp_enabled : Bool
  pub totp_secret : Option (List ℕ)
  pub ip_whitelist : List AllowEntry

-- The body's `code`, and whether it has a `tempToken`; `pending` is the payload's `pending2fa`, none for a token that is not valid.
pub record Attempt : Type 0 where
  pub has_token : Bool
  pub pending : Option Bool
  pub code : List ℕ
  pub client : Option Client

pub data Answer : Type 0 where
  missing_fields invalid_token not_enabled unreadable already_used wrong_code threw ip_refused
        session :
      Answer

abbrev pub is_empty : List ℕ → Bool
is_empty [] = true
is_empty (c ∷ cs) = false

-- A secret that is missing or empty cannot be used.
abbrev pub readable : Option (List ℕ) → Option (List ℕ)
readable none = none
readable (some secret) = if is_empty secret then none else some secret

module _ (hmac : List ℕ → List ℕ → List ℕ) (to_upper_case : List ℕ → List ℕ) where
  abbrev pub accept : Settings → Attempt → List ℕ → List ℕ → ℕ → Used → Answer × Used
  accept settings a secret clean now used =
      let used' = mark_used secret clean now used in
      if not (is_ip_allowed a.client settings.ip_whitelist)
      then (ip_refused, used')
      else (session, used')

  abbrev pub check_code :
      Settings → Attempt → List ℕ → List ℕ → ℕ → Used → Option Bool → Answer × Used
  check_code settings a secret clean now used none = (threw, used)
  check_code settings a secret clean now used (some false) = (wrong_code, used)
  check_code settings a secret clean now used (some true) = accept settings a secret clean now used

  abbrev pub check_secret : Settings → Attempt → ℕ → Used → Option (List ℕ) → Answer × Used
  check_secret settings a now used none = (unreadable, used)
  check_secret settings a now used (some secret) =
      let clean = without_spaces a.code in
      if is_replay secret clean used
      then (already_used, used)
      else check_code settings a secret clean now used
          (verify_totp hmac to_upper_case now secret clean 1)

  abbrev pub check_settings : Attempt → ℕ → Used → Option Settings → Answer × Used
  check_settings a now used none = (unreadable, used)
  check_settings a now used (some settings) =
      if not settings.totp_enabled
      then (not_enabled, used)
      else check_secret settings a now used (readable settings.totp_secret)

  abbrev pub check_pending : Attempt → ℕ → Used → Option Settings → Option Bool → Answer × Used
  check_pending a now used settings none = (invalid_token, used)
  check_pending a now used settings (some false) = (invalid_token, used)
  check_pending a now used settings (some true) = check_settings a now used settings

  unfoldable pub verify_route : Option Settings → Attempt → ℕ → Used → Answer × Used
  verify_route settings a now used =
      if not a.has_token || is_empty a.code
      then (missing_fields, used)
      else check_pending a now used settings a.pending
