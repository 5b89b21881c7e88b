-- ===== src/Access/Auth.antt =====
-- packages/backend/src/middleware/auth.ts: `isIpAllowed`, `requireAuth` and `verifyWsToken`. `jwt.verify`, the revocation list, the settings file and
-- the header's token are arguments. A whitelist entry with a slash is a network.
pub mod Upgrade
use virt_pilot.Common.{
  ℕ, ◌≡◌, refl, ap, ◌∙◌, inl, inr, ◌↔◌, Bool, true, false, not, ◌&&◌, ◌||◌, Option, none, some,
  List, [], ◌∷◌, if◌then◌else◌, arith, Bool-cases, Option-cases, String, same, truthy,
}
use virt_pilot.Net.Cidr.{auth_ip_in_cidr}

pub data AllowEntry : Type 0 where
  address : (text : String) → AllowEntry
  network : (range : List (Option ℕ)) (bits : Option ℕ) → AllowEntry

-- The caller's address less `::ffff:`, as text and as the numbers between its dots.
pub record Client : Type 0 where
  pub text : String
  pub parts : List (Option ℕ)

unfoldable pub matches_entry : Client → AllowEntry → Bool
matches_entry client (address text) = same client.text text
matches_entry client (network range bits) = auth_ip_in_cidr client.parts range bits

abbrev pub matches_some : Client → List AllowEntry → Bool
matches_some client [] = false
matches_some client (e ∷ es) = matches_entry client e || matches_some client es

unfoldable pub is_ip_allowed : Option Client → List AllowEntry → Bool
is_ip_allowed client [] = true
is_ip_allowed none (e ∷ es) = false
is_ip_allowed (some client) (e ∷ es) = matches_some client (e ∷ es)

pub record Payload : Type 0 where
  pub typ : Option String
  pub scope : Option String
  pub pending_2fa : Bool

abbrev pub is_missing : Option String → Bool
is_missing none = true
is_missing (some s) = false

abbrev pub is_session : Option String → Bool
is_session none = false
is_session (some s) = same s "session"

unfoldable pub is_session_token : Payload → Bool
is_session_token p =
    is_session p.typ
    || (is_missing (truthy p.typ) && is_missing (truthy p.scope) && not p.pending_2fa)

-- `next()`, or the status.
pub data Reply : Type 0 where
  pass : Reply
  status : ℕ → Reply

module _ (verify : String → Option Payload) (is_revoked : String → Bool) where
  abbrev pub check_settings : Option Client → Option (List AllowEntry) → Reply
  check_settings client none = status 503
  check_settings client (some whitelist) =
      if not (is_ip_allowed client whitelist) then status 403 else pass

  abbrev pub check_payload : Option Client → Option (List AllowEntry) → Option Payload → Reply
  check_payload client settings none = status 401
  check_payload client settings (some p) =
      if p.pending_2fa
      then status 401
      else if not (is_session_token p)
      then status 401
      else check_settings client settings

  abbrev pub check_token : Option Client → Option (List AllowEntry) → Option String → Reply
  check_token client settings none = status 401
  check_token client settings (some token) =
      if is_revoked token then status 401 else check_payload client settings (verify token)

  unfoldable pub require_auth : Option Client → Option (List AllowEntry) → Option String → Reply
  require_auth client settings bearer = check_token client settings (truthy bearer)

  abbrev pub ws_payload : Option Payload → Bool
  ws_payload none = false
  ws_payload (some p) = if p.pending_2fa then false else is_session_token p

  abbrev pub ws_token : Option String → Bool
  ws_token none = false
  ws_token (some token) = if is_revoked token then false else ws_payload (verify token)

  unfoldable pub verify_ws_token : Option String → Bool
  verify_ws_token token = ws_token (truthy token)

-- A token that may act for its user.
pub record IsGood (verify : String → Option Payload) (is_revoked : String → Bool)
    (bearer : Option String) : Type 0 where
  pub token : String
  pub payload : Payload
  pub given : truthy bearer ≡ some token
  pub not_revoked : is_revoked token ≡ false
  pub verified : verify token ≡ some payload
  pub not_pending : payload.pending_2fa ≡ false
  pub session : is_session_token payload ≡ true

pass-payload :
    (verify : String → Option Payload) (is_revoked : String → Bool) (client : Option Client)
    (settings : Option (List AllowEntry)) (o : Option Payload)
    → check_payload verify is_revoked client settings o ≡ pass
    → (p : Payload) × (o ≡ some p)
      × (p.pending_2fa ≡ false)
      × (is_session_token p ≡ true)
      × (check_settings verify is_revoked client settings ≡ pass)
pass-payload verify is_revoked client settings none e = absurd (ground (arith, e))
pass-payload verify is_revoked client settings (some p) e = elim (Bool-cases p.pending_2fa) [
  | inl pending ↦ absurd (ground (arith, pending, e))
  | inr settled ↦ elim (Bool-cases (is_session_token p)) [
    | inr other ↦ absurd (ground (arith, settled, other, e))
    | inl session ↦ (p, refl, settled, session, ground (arith, settled, session, e))
  ]
]

pass-settings :
    (verify : String → Option Payload) (is_revoked : String → Bool) (client : Option Client)
    (o : Option (List AllowEntry))
    → check_settings verify is_revoked client o ≡ pass
    → (l : List AllowEntry) × (o ≡ some l) × (is_ip_allowed client l ≡ true)
pass-settings verify is_revoked client none e = absurd (ground (arith, e))
pass-settings verify is_revoked client (some l) e = (l, refl, ground (arith, e))

pass-token :
    (verify : String → Option Payload) (is_revoked : String → Bool) (client : Option Client)
    (settings : Option (List AllowEntry)) (o : Option String)
    → check_token verify is_revoked client settings o ≡ pass
    → (t : String) × (o ≡ some t)
      × (is_revoked t ≡ false)
      × (check_payload verify is_revoked client settings (verify t) ≡ pass)
pass-token verify is_revoked client settings none e = absurd (ground (arith, e))
pass-token verify is_revoked client settings (some t) e = elim (Bool-cases (is_revoked t)) [
  | inl gone ↦ absurd (ground (arith, gone, e))
  | inr live ↦ (t, refl, live, ground (arith, live, e))
]

-- A request passes exactly when its token is given, not revoked, verified, past the second factor and a session's,
-- the settings can be read, and the caller's address is allowed by them.
pub require_auth_iff :
    (verify : String → Option Payload) (is_revoked : String → Bool) (client : Option Client)
    (settings : Option (List AllowEntry)) (bearer : Option String)
    → (require_auth verify is_revoked client settings bearer ≡ pass) ↔ (
        IsGood verify is_revoked bearer
        × ((l : List AllowEntry) × (settings ≡ some l) × (is_ip_allowed client l ≡ true)))
unfolding require_auth
require_auth_iff verify is_revoked client settings bearer = (
  λ e.
      let (t, given, live, e1) = pass-token verify is_revoked client settings (truthy bearer) e in
      let (p, verified, settled, session, e2) =
        pass-payload verify is_revoked client settings (verify t) e1 in
      (
        record {
          token = t;
          payload = p;
          given = given;
          not_revoked = live;
          verified = verified;
          not_pending = settled;
          session = session;
        },
        pass-settings verify is_revoked client settings e2,
      ),
  λ (g, (l, read, allowed)).
      ap (check_token verify is_revoked client settings) g.given
      ∙ ground (arith, g.not_revoked, g.verified, g.not_pending, g.session, read, allowed),
)

-- A token opens a socket, but for the address, exactly when it is good.
pub verify_ws_token_iff :
    (verify : String → Option Payload) (is_revoked : String → Bool) (token : Option String)
    → (verify_ws_token verify is_revoked token ≡ true) ↔ IsGood verify is_revoked token
unfolding verify_ws_token
verify_ws_token_iff verify is_revoked token = (
  λ e. accepted (truthy token) refl e,
  λ g.
      ap (ws_token verify is_revoked) g.given
      ∙ ground (arith, g.not_revoked, g.verified, g.not_pending, g.session),
)
  where
    accepted :
        (o : Option String)
        → truthy token ≡ o
        → ws_token verify is_revoked o ≡ true
        → IsGood verify is_revoked token
    accepted none t e = absurd (ground (arith, e))
    accepted (some s) t e = elim (Bool-cases (is_revoked s)) [
      | inl gone ↦ absurd (ground (arith, gone, e))
      | inr live ↦ elim (Option-cases (verify s)) [
        | inl bad ↦ absurd (ground (arith, live, bad, e))
        | inr (p, ok) ↦ record {
          token = s;
          payload = p;
          given = t;
          not_revoked = live;
          verified = ok;
          not_pending = ground (arith, live, ok, e);
          session = ground (arith, live, ok, e);
        }
      ]
    ]
