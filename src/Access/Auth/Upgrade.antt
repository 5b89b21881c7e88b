-- ===== src/Access/Auth/Upgrade.antt =====
-- The handler of `upgrade` in packages/backend/src/index.ts, which hands a socket to the console, SSH or VNC.
use virt_pilot.Common.{
  ◌≡◌, refl, ap, ◌∙◌, inl, inr, ◌↔◌, Bool, true, not, Option, none, some, List, if◌then◌else◌,
  arith, Bool-cases, String, same, same-cases, ℕ,
}
use virt_pilot.Access.Auth.{
  AllowEntry, Client, Payload, is_ip_allowed, verify_ws_token, IsGood, verify_ws_token_iff,
}

pub data Endpoint : Type 0 where
  console ssh vnc : Endpoint

-- A socket that is not handed on is destroyed, after a status but for an unknown path.
pub data Upgraded : Type 0 where
  handed_to : Endpoint → Upgraded
  closed : (status : Option ℕ) → Upgraded

unfoldable pub route : String → Upgraded
route path =
    if same path "/ws/console"
    then handed_to console
    else if same path "/ws/ssh"
    then handed_to ssh
    else if same path "/ws/vnc"
    then handed_to vnc
    else closed none

-- `path_of` writes the path that leads to an endpoint.
abbrev pub path_of : Endpoint → String
path_of console = "/ws/console"
path_of ssh = "/ws/ssh"
path_of vnc = "/ws/vnc"

abbrev pub check_address : Option (List AllowEntry) → Option Client → String → Upgraded
check_address none client path = closed (some 500)
check_address (some whitelist) client path =
    if not (is_ip_allowed client whitelist) then closed (some 403) else route path

-- `path` is none where `new URL` throws, `settings` where `getUserSettings` does.
unfoldable pub upgrade :
    (String → Option Payload)
    → (String → Bool)
    → Option String
    → Option String
    → Option (List AllowEntry)
    → Option Client
    → Upgraded
unfolding route
upgrade verify is_revoked none token settings client = closed (some 500)
upgrade verify is_revoked (some path) token settings client =
    if not (verify_ws_token verify is_revoked token)
    then closed (some 401)
    else check_address settings client path

route_iff : (path : String) (e : Endpoint) → (route path ≡ handed_to e) ↔ (path ≡ path_of e)
unfolding route
route_iff path e = (
  λ h. elim (same-cases path "/ws/console") [
    | inl (p, t) ↦ to_path e console p (ground (arith, t, h))
    | inr (ne, t) ↦ elim (same-cases path "/ws/ssh") [
      | inl (p, u) ↦ to_path e ssh p (ground (arith, t, u, h))
      | inr (ne, u) ↦ elim (same-cases path "/ws/vnc") [
        | inl (p, w) ↦ to_path e vnc p (ground (arith, t, u, w, h))
        | inr (ne, w) ↦ absurd (ground (arith, t, u, w, h))
      ]
    ]
  ],
  λ p. ap route p ∙ back e,
)
  where
    to_path : (e f : Endpoint) → path ≡ path_of f → f ≡ e → path ≡ path_of e
    to_path e f p same_one = p ∙ ap path_of same_one

    back : (e : Endpoint) → route (path_of e) ≡ handed_to e
    back console = refl
    back ssh = refl
    back vnc = refl

-- A socket is handed to an endpoint exactly when its path is the endpoint's, its token is given, not revoked,
-- verified, past the second factor and a session's, the settings can be read and the caller's address is allowed by
-- them.
pub upgrade_iff :
    (verify : String → Option Payload) (is_revoked : String → Bool) (path token : Option String)
    (settings : Option (List AllowEntry)) (client : Option Client) (e : Endpoint)
    → (upgrade verify is_revoked path token settings client ≡ handed_to e) ↔ (
        (path ≡ some (path_of e))
        × IsGood verify is_revoked token
        × ((l : List AllowEntry) × (settings ≡ some l) × (is_ip_allowed client l ≡ true)))
unfolding upgrade
upgrade_iff verify is_revoked none token settings client e =
    (λ h. absurd (ground (arith, h)), λ (h, good, settled). absurd (ground (arith, h)))
upgrade_iff verify is_revoked (some path) token settings client e = (
  λ h. elim (Bool-cases (verify_ws_token verify is_revoked token)) [
    | inr bad ↦ absurd (ground (arith, bad, h))
    | inl good ↦
        let (allowed, at) = passed settings (ground (arith, good, h)) in
        (
          ap some ((route_iff path e).0 at),
          (verify_ws_token_iff verify is_revoked token).0 good,
          allowed,
        )
  ],
  λ (p, good, (l, read, allowed)). ground (
    arith,
    (verify_ws_token_iff verify is_revoked token).1 good,
    read,
    allowed,
    (route_iff path e).1 (ground (arith, p)),
  ),
)
  where
    passed :
        (o : Option (List AllowEntry))
        → check_address o client path ≡ handed_to e
        → ((l : List AllowEntry) × (o ≡ some l) × (is_ip_allowed client l ≡ true))
          × (route path ≡ handed_to e)
    passed none h = absurd (ground (arith, h))
    passed (some l) h = elim (Bool-cases (is_ip_allowed client l)) [
      | inl t ↦ ((l, refl, t), ground (arith, t, h))
      | inr t ↦ absurd (ground (arith, t, h))
    ]
