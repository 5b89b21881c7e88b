-- ===== src/Access/Totp/OneSession.antt =====
-- A code opens one session.
use virt_pilot.Common.{
  ℕ, ◌+◌, ◌/◌, ◌≤◌, ◌<◌, ◌≡◌, ◌≢◌, refl, sym, ap, ◌∙◌, ◌⊎◌, inl, inr, Bool, true, false, not, ◌||◌,
  Option, none, some, List, [], ◌∷◌, All, All-map, if◌then◌else◌, leb, Bool-cases, subst, arith,
}
use virt_pilot.Access.Auth.{is_ip_allowed}
use virt_pilot.Access.Totp.Base32.{without_spaces}
use virt_pilot.Access.Totp.Code.{verify_totp}
use virt_pilot.Access.Totp.Replay.{
  Used, key_of, is_replay, mark_used, sweep_used, Settings, Attempt, Answer, missing_fields,
  not_enabled, already_used, ip_refused, session, is_empty, readable, verify_route, check_code,
  check_secret, check_settings, check_pending,
}
use virt_pilot.Access.Totp.Held.{
  used_at-sweep, secret_of, readable-some, IsHeld, mark_used-IsHeld, mark_used-here, held-ne-new,
}

module _ (hmac : List ℕ → List ℕ → List ℕ) (to_upper_case : List ℕ → List ℕ) where
  -- What the map can be after a call, by the answer.
  abbrev Outcome : Option Settings → Attempt → ℕ → Used → Answer × Used → Type 0
  Outcome settings a now used r =
      ((r.1 ≡ used) × (r.0 ≢ session))
      ⊎ ((secret : List ℕ) × (s : Settings) × (settings ≡ some s)
          × (s.totp_secret ≡ some secret)
          × (is_replay secret (without_spaces a.code) used ≡ false)
          × (r.1 ≡ mark_used secret (without_spaces a.code) now used))

  accept-Outcome :
      (s : Settings) (a : Attempt) (secret : List ℕ) (now : ℕ) (used : Used) (o : Option Bool)
      → s.totp_secret ≡ some secret
      → is_replay secret (without_spaces a.code) used ≡ false
      → Outcome
          (some s)
          a
          now
          used
          (check_code hmac to_upper_case s a secret (without_spaces a.code) now used o)
  accept-Outcome s a secret now used none known new = inl (refl, λ e. ground (arith, e))
  accept-Outcome s a secret now used (some false) known new = inl (refl, λ e. ground (arith, e))
  accept-Outcome s a secret now used (some true) known new =
      elim (not (is_ip_allowed a.client s.ip_whitelist))
        as (λ b. Outcome (some s) a now used (by_address b)) [
          | true ↦ inr (secret, s, refl, known, new, refl)
          | false ↦ inr (secret, s, refl, known, new, refl)
        ]
    where
      by_address : Bool → Answer × Used
      by_address b =
          if b
          then (ip_refused, mark_used secret (without_spaces a.code) now used)
          else (session, mark_used secret (without_spaces a.code) now used)

  secret-Outcome :
      (s : Settings) (a : Attempt) (now : ℕ) (used : Used) (o : Option (List ℕ))
      → readable s.totp_secret ≡ o
      → Outcome (some s) a now used (check_secret hmac to_upper_case s a now used o)
  secret-Outcome s a now used none e = inl (refl, λ e. ground (arith, e))
  secret-Outcome s a now used (some secret) e =
      let code = without_spaces a.code in
      let rest =
        check_code hmac to_upper_case s a secret code now used
          (verify_totp hmac to_upper_case now secret code 1) in
      elim (Bool-cases (is_replay secret code used)) [
        | inl replay ↦
            subst (λ b. Outcome (some s) a now used (if b then (already_used, used) else rest))
              (sym replay) (inl (refl, λ e. ground (arith, e)))
        | inr new ↦
            subst (λ b. Outcome (some s) a now used (if b then (already_used, used) else rest))
              (sym new)
              (accept-Outcome s a secret now used (verify_totp hmac to_upper_case now secret code 1)
                (readable-some s.totp_secret secret e) new)
      ]

  settings-Outcome :
      (settings : Option Settings) (a : Attempt) (now : ℕ) (used : Used)
      → Outcome settings a now used (check_settings hmac to_upper_case a now used settings)
  settings-Outcome none a now used = inl (refl, λ e. ground (arith, e))
  settings-Outcome (some s) a now used =
      elim s.totp_enabled
        as (λ b. Outcome (some s) a now used (
          if not b
          then (not_enabled, used)
          else check_secret hmac to_upper_case s a now used (readable s.totp_secret))) [
            | true ↦ secret-Outcome s a now used (readable s.totp_secret) refl
            | false ↦ inl (refl, λ e. ground (arith, e))
          ]

  pending-Outcome :
      (settings : Option Settings) (a : Attempt) (now : ℕ) (used : Used) (o : Option Bool)
      → Outcome settings a now used (check_pending hmac to_upper_case a now used settings o)
  pending-Outcome settings a now used none = inl (refl, λ e. ground (arith, e))
  pending-Outcome settings a now used (some false) = inl (refl, λ e. ground (arith, e))
  pending-Outcome settings a now used (some true) = settings-Outcome settings a now used

  route-Outcome :
      (settings : Option Settings) (a : Attempt) (now : ℕ) (used : Used)
      → Outcome settings a now used (verify_route hmac to_upper_case settings a now used)
  unfolding verify_route
  route-Outcome settings a now used =
      elim (not a.has_token || is_empty a.code)
        as (λ b. Outcome settings a now used (
          if b
          then (missing_fields, used)
          else check_pending hmac to_upper_case a now used settings a.pending)) [
            | true ↦ inl (refl, λ e. ground (arith, e))
            | false ↦ pending-Outcome settings a now used a.pending
          ]

  -- What happens between two calls: other calls, and rounds of the timer.
  pub data Event : Type 0 where
    call : (settings : Option Settings) (a : Attempt) (now : ℕ) → Event
    round : (now : ℕ) → Event

  abbrev pub time_of : Event → ℕ
  time_of (call settings a now) = now
  time_of (round now) = now

  abbrev pub after : List Event → Used → Used
  after [] used = used
  after (call settings a now ∷ es) used =
      after es (verify_route hmac to_upper_case settings a now used).1
  after (round now ∷ es) used = after es (sweep_used now used)

  after-IsHeld :
      (k : List ℕ) (t : ℕ) (es : List Event) (used : Used)
      → All (λ e. (t ≤ time_of e) × (time_of e ≤ t + 120000)) es
      → IsHeld k t used
      → IsHeld k t (after es used)
  after-IsHeld k t [] used times held = held
  after-IsHeld k t (call settings a now ∷ es) used times held =
      after-IsHeld k t es (verify_route hmac to_upper_case settings a now used).1 times.1
        (elim (route-Outcome settings a now used) [
          | inl (same_map, _) ↦ subst (IsHeld k t) (sym same_map) held
          | inr (secret, s, _, _, _, marked) ↦
              subst (IsHeld k t) (sym marked)
                (mark_used-IsHeld k secret (without_spaces a.code) t now used times.0.0 held)
        ])
  after-IsHeld k t (round now ∷ es) used times (at, held, late) =
      after-IsHeld k t es (sweep_used now used) times.1
        (at, used_at-sweep k now used at held (omega (arith, times.0.1, late)), late)

  -- A session's secret and code, new in the map before the call and marked by it.
  abbrev Opened : Settings → Attempt → ℕ → Used → Type 0
  Opened s a now used =
      (secret : List ℕ) × (s.totp_secret ≡ some secret)
      × (is_replay secret (without_spaces a.code) used ≡ false)
      × ((verify_route hmac to_upper_case (some s) a now used).1
          ≡ mark_used secret (without_spaces a.code) now used)

  session-Opened :
      (s : Settings) (a : Attempt) (now : ℕ) (used : Used)
      → (verify_route hmac to_upper_case (some s) a now used).0 ≡ session
      → Opened s a now used
  session-Opened s a now used h = elim (route-Outcome (some s) a now used) [
    | inl (_, refused) ↦ absurd (refused h)
    | inr (secret, s', here, known, new, marked) ↦
        (secret, secret_of s s' here ∙ known, new, marked)
  ]

  -- Two sessions that were opened with one code of one secret lie more than two time steps apart, whatever calls and rounds of the timer there were between them, so that no time step that the first call accepts is one that the second call accepts.
  pub sessions_apart :
      (s s' : Settings) (a a' : Attempt) (t t' : ℕ) (es : List Event) (used : Used)
      → s.totp_secret ≡ s'.totp_secret
      → without_spaces a.code ≡ without_spaces a'.code
      → All (λ e. (t ≤ time_of e) × (time_of e ≤ t')) es
      → (verify_route hmac to_upper_case (some s) a t used).0 ≡ session
      → (verify_route hmac to_upper_case
          (some s')
          a'
          t'
          (after es (verify_route hmac to_upper_case (some s) a t used).1)).0
        ≡ session
      → t / 1000 / 30 + 2 < t' / 1000 / 30
  sessions_apart s s' a a' t t' es used one_secret one_code times first second =
      let then_used = after es (verify_route hmac to_upper_case (some s) a t used).1 in
      let (secret, known, _, marked) = session-Opened s a t used first in
      let (secret', known', new, _) = session-Opened s' a' t' then_used second in
      let same_key : key_of secret (without_spaces a.code)
          ≡ key_of secret' (without_spaces a'.code) =
        ap (λ o. key_of (elim o [ none ↦ [] | some x ↦ x ]) (without_spaces a.code))
          (sym known ∙ one_secret ∙ known')
        ∙ ap (key_of secret') one_code in
      elim (Bool-cases (leb t' (t + 120000))) [
        | inl soon ↦
            let held =
              after-IsHeld (key_of secret (without_spaces a.code)) t es _
                (All-map (λ e. (t ≤ time_of e) × (time_of e ≤ t'))
                  (λ e. (t ≤ time_of e) × (time_of e ≤ t + 120000)) es
                  (λ e h. (h.0, ground (arith, soon, h.1))) times)
                (subst (IsHeld _ t) (sym marked)
                  (mark_used-here secret (without_spaces a.code) t used)) in
            absurd
              (held-ne-new _ _ t then_used (subst (λ k. IsHeld k t then_used) same_key held) new)
        | inr late ↦ ground (arith, late)
      ]
