-- ===== src/Tests/AuthTests.antt =====
-- One session token, with an address that the whitelist names.
use Prim.Native.String.{String}
use virt_pilot.Common.{◌≡◌, ◌↔◌, Bool, true, false, Option, none, some, List, [], ◌∷◌}
use virt_pilot.Access.Auth.{
  AllowEntry, address, Client, Payload, pass, require_auth, is_ip_allowed, IsGood, require_auth_iff,
}
use virt_pilot.Access.Auth.Upgrade.{upgrade, handed_to, ssh, path_of, upgrade_iff}

abbrev verify : String → Option Payload
verify token = some (record { typ = some "session"; scope = none; pending_2fa = false })

abbrev is_revoked : String → Bool
is_revoked token = false

abbrev client : Option Client
client = some (record { text = "10.0.0.1"; parts = some 10 ∷ some 0 ∷ some 0 ∷ some 1 ∷ [] })

abbrev settings : Option (List AllowEntry)
settings = some (address "10.0.0.1" ∷ [])

require_auth_iff_example : (require_auth verify is_revoked client settings (some "t") ≡ pass) ↔ (
    IsGood verify is_revoked (some "t")
    × ((l : List AllowEntry) × (settings ≡ some l) × (is_ip_allowed client l ≡ true)))
require_auth_iff_example = require_auth_iff verify is_revoked client settings (some "t")

upgrade_iff_example :
    (upgrade verify is_revoked (some "/ws/ssh") (some "t") settings client ≡ handed_to ssh) ↔ (
      ((◌≡◌ {A = Option String}) (some "/ws/ssh") (some (path_of ssh)))
      × IsGood verify is_revoked (some "t")
      × ((l : List AllowEntry) × (settings ≡ some l) × (is_ip_allowed client l ≡ true)))
upgrade_iff_example = upgrade_iff verify is_revoked (some "/ws/ssh") (some "t") settings client ssh
