-- ===== src/Tests/TotpTests.antt =====
-- One secret of three bytes, an HMAC of zeros, and one code used twice.
use virt_pilot.Common.{
  ℕ, ◌+◌, ◌/◌, ◌≤◌, ◌<◌, ◌≡◌, refl, ◌↔◌, true, none, some, List, [], ◌∷◌, arith,
}
use virt_pilot.Access.Totp.Base32.{
  codes, b32_encode, b32_decode, encode_from, push, drain, letter, without_spaces, is_space,
}
use virt_pilot.Access.Totp.Secret.{b32_decode-encode}
use virt_pilot.Access.Totp.Code.{
  hotp, verify_totp, digits, same_codes, try_counters, six_digits, truncated, decimal, pad_start,
  verify_totp_iff, hotp-digits,
}
use virt_pilot.Access.Totp.Replay.{
  Settings, Attempt, session, verify_route, is_replay, used_at, mark_used, put, sweep_used,
}
use virt_pilot.Access.Totp.OneSession.{Event, call, round, after, sessions_apart}
use virt_pilot.Access.Auth.{is_ip_allowed}
use virt_pilot.Net.Bits.{lor}

abbrev unchanged : List ℕ → List ℕ
unchanged text = text

b32_decode-encode_example :
    b32_decode unchanged (b32_encode (72 ∷ 105 ∷ 255 ∷ [])) ≡ 72 ∷ 105 ∷ 255 ∷ []
b32_decode-encode_example =
    b32_decode-encode unchanged (72 ∷ 105 ∷ 255 ∷ []) (λ text h. refl) (omega arith)

encoded : b32_encode (72 ∷ 105 ∷ 255 ∷ []) ≡ codes "JBU76"
unfolding b32_encode encode_from push drain letter lor
encoded = refl

abbrev zeros : List ℕ → List ℕ → List ℕ
zeros key message = []

hotp-digits_example : (n : ℕ) × (hotp zeros unchanged (codes "JBU76") 5 ≡ digits n)
hotp-digits_example = hotp-digits zeros unchanged (codes "JBU76") 5

verify_totp_iff_example :
    (verify_totp zeros unchanged 90000 (codes "JBU76") (codes "000 000") 1 ≡ some true) ↔ (
      (c : ℕ) × (90000 / 1000 / 30 ≤ c + 1)
      × (c ≤ 90000 / 1000 / 30 + 1)
      × (hotp zeros unchanged (codes "JBU76") c ≡ without_spaces (codes "000 000")))
verify_totp_iff_example =
    verify_totp_iff zeros unchanged 90000 1 (codes "JBU76") (codes "000 000") (omega arith)

abbrev settings : Settings
settings = record { totp_enabled = true; totp_secret = some (codes "JBU76"); ip_whitelist = [] }

abbrev attempt : Attempt
attempt = record { has_token = true; pending = some true; code = codes "000000"; client = none }

abbrev between : List (Event zeros unchanged)
between = call (some settings) attempt 100000 ∷ round 240000 ∷ []

opened : (verify_route zeros unchanged (some settings) attempt 90000 []).0 ≡ session
unfolding verify_route is_replay used_at mark_used put verify_totp try_counters hotp six_digits
    truncated decimal pad_start same_codes without_spaces is_space lor is_ip_allowed
opened = refl

opened_again :
    (verify_route zeros unchanged (some settings) attempt 300000 (
      after zeros unchanged between
        (verify_route zeros unchanged (some settings) attempt 90000 []).1)).0
    ≡ session
unfolding verify_route is_replay used_at mark_used put verify_totp try_counters hotp six_digits
    truncated decimal pad_start same_codes without_spaces is_space lor is_ip_allowed sweep_used
opened_again = refl

sessions_apart_example : 90000 / 1000 / 30 + 2 < 300000 / 1000 / 30
sessions_apart_example =
    sessions_apart zeros unchanged settings settings attempt attempt 90000 300000 between [] refl
      refl (omega arith) opened opened_again
