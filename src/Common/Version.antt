-- ===== src/Common/Version.antt =====
-- expose-common/src/protocol.rs: protocol versions (MAJOR * 100 + MINOR) and their compatibility.
use expose.Prelude.{
  ℕ, ◌+◌, ◌*◌, ◌/◌, ◌%◌, ◌≤◌, ◌<◌, ◌≡◌, refl, ◌↔◌, ◌++◌, Bool, true, false, Option, none, some,
  arith, ltb, if◌then◌else◌, ◌==◌,
}
use expose.Prelude.Text.{Text, lit, show}

abbrev pub protocol_version : ℕ
protocol_version = 200

unfoldable pub major_version : ℕ → ℕ
major_version version = version / 100

unfoldable pub minor_version : ℕ → ℕ
minor_version version = version % 100

unfoldable pub versions_compatible : ℕ → ℕ → Bool
unfolding major_version
versions_compatible client_version server_version =
    major_version client_version == major_version server_version

pub data VersionCheckResult : Type 0 where
  compatible : VersionCheckResult
  client_too_old : (client_version server_version min_supported : ℕ) → VersionCheckResult
  client_too_new : (client_version server_version : ℕ) → VersionCheckResult

unfoldable pub check : ℕ → ℕ → VersionCheckResult
unfolding versions_compatible
check client_version server_version =
    if versions_compatible client_version server_version
    then VersionCheckResult.compatible
    else if ltb client_version server_version
    then VersionCheckResult.client_too_old client_version server_version
        (major_version server_version * 100)
    else VersionCheckResult.client_too_new client_version server_version

unfoldable pub is_compatible : VersionCheckResult → Bool
is_compatible VersionCheckResult.compatible = true
is_compatible _ = false

unfoldable pub error_message : VersionCheckResult → Option Text
error_message VersionCheckResult.compatible = none
error_message (VersionCheckResult.client_too_old client_version server_version min_supported) =
    some (
      lit "Client version "
      ++ (show client_version
          ++ (lit " is incompatible with server version "
              ++ (show server_version
                  ++ (lit ". Upgrade the client to version "
                      ++ (show min_supported ++ lit " or newer."))))))
error_message (VersionCheckResult.client_too_new client_version server_version) = some (
    lit "Client version "
    ++ (show client_version
        ++ (lit " is newer than server version "
            ++ (show server_version ++ lit ". Upgrade the server to a compatible build."))))

silent_iff : (c : VersionCheckResult) → (error_message c ≡ none) ↔ (is_compatible c ≡ true)
unfolding error_message is_compatible
silent_iff VersionCheckResult.compatible = (λ h. refl, λ h. refl)
silent_iff (VersionCheckResult.client_too_old c s m) = (λ h. absurd (cc), λ h. absurd (cc))
silent_iff (VersionCheckResult.client_too_new c s) = (λ h. absurd (cc), λ h. absurd (cc))

-- Both versions lie in the block of the major version `m`.
abbrev pub OneBlock : ℕ → ℕ → Type 0
OneBlock client server =
    (m : ℕ) × (m * 100 ≤ client)
    × (client < m * 100 + 100)
    × (m * 100 ≤ server)
    × (server < m * 100 + 100)

-- Two versions are judged compatible exactly when both lie in one block of a hundred, and exactly
-- then there is no message to show.
pub is_compatible_iff :
    (client server : ℕ)
    → ((is_compatible (check client server) ≡ true) ↔ OneBlock client server)
      × ((error_message (check client server) ≡ none) ↔ OneBlock client server)
unfolding check is_compatible
is_compatible_iff client server = (
  (ahead, λ (m, a, b, c, d). same m a b c d),
  (
    λ h. ahead ((silent_iff (check client server)).0 h),
    λ (m, a, b, c, d). (silent_iff (check client server)).1 (same m a b c d),
  ),
)
  where
    ahead : is_compatible (check client server) ≡ true → OneBlock client server
    ahead h = (server / 100, ground arith, ground arith, ground arith, ground arith)

    same :
        (m : ℕ)
        → m * 100 ≤ client
        → client < m * 100 + 100
        → m * 100 ≤ server
        → server < m * 100 + 100
        → is_compatible (check client server) ≡ true
    same m a b c d = ground arith

-- The advice to an old client is right: it runs an older version than the one that it is told to
-- upgrade to, and that version is compatible with the server's and no newer than it.
pub check-advice :
    (client server c s least : ℕ)
    → check client server ≡ VersionCheckResult.client_too_old c s least
    → (c ≡ client)
      × (s ≡ server)
      × (client < least)
      × (least ≤ server)
      × (is_compatible (check least server) ≡ true)
unfolding check is_compatible
check-advice client server c s least h = ground arith
