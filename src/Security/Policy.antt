-- ===== src/Security/Policy.antt =====
-- The target policies of backend/app/security/allowlist.py. A policy's `base_url` is canonical: the
-- model keeps the parts that `urlsplit` finds in it, the port with its default.
use web_security_audit_platf.Prelude.{
  ℕ, String, Bool, true, false, not, ◌&&◌, ◌||◌, Option, none, some, List, [], ◌∷◌, all, any,
  str_eq, is_none, ◌==◌, if◌then◌else◌, Result, ok, err, raise_if, ◌>>◌,
}
use web_security_audit_platf.Contracts.{ScanMode, mode_eq, scan_profile_for_id}
use web_security_audit_platf.Security.Paths.{
  Text, contains, text_eq, path_is_within_scope, PathError,
}

pub data ScanEngine : Type 0 where
  scopeharbor_passive zap_passive zap_active zap_client_spider repository : ScanEngine

abbrev pub engine_eq : ScanEngine → ScanEngine → Bool
engine_eq scopeharbor_passive scopeharbor_passive = true
engine_eq zap_passive zap_passive = true
engine_eq zap_active zap_active = true
engine_eq zap_client_spider zap_client_spider = true
engine_eq repository repository = true
engine_eq _ _ = false

abbrev pub has_engine : ScanEngine → List ScanEngine → Bool
has_engine e engines = any (engine_eq e) engines

-- `set(engines).issubset(allowed)`
abbrev pub is_subset : List ScanEngine → List ScanEngine → Bool
is_subset engines allowed = all (λ e. has_engine e allowed) engines

-- `len(engines) != len(set(engines))`
unfoldable pub has_duplicate : List ScanEngine → Bool
has_duplicate [] = false
has_duplicate (e ∷ es) = has_engine e es || has_duplicate es

abbrev pub is_zap_engine : ScanEngine → Bool
is_zap_engine zap_passive = true
is_zap_engine zap_active = true
is_zap_engine zap_client_spider = true
is_zap_engine _ = false

-- LEGACY_ENGINES_BY_PROFILE, which ALLOWED_ENGINES_BY_PROFILE has as sets.
unfoldable pub allowed_engines : String → Option (List ScanEngine)
allowed_engines id =
    if str_eq id "passive-web"
    then some (scopeharbor_passive ∷ zap_passive ∷ [])
    else if str_eq id "active-demo"
    then some (scopeharbor_passive ∷ zap_passive ∷ zap_active ∷ [])
    else if str_eq id "modern-web-crawl"
    then some (scopeharbor_passive ∷ zap_passive ∷ zap_client_spider ∷ [])
    else if str_eq id "repository"
    then some (repository ∷ [])
    else none

-- REQUIRED_ENGINES_BY_PROFILE
unfoldable pub required_engines : String → List ScanEngine
required_engines id =
    if str_eq id "passive-web"
    then scopeharbor_passive ∷ []
    else if str_eq id "active-demo"
    then scopeharbor_passive ∷ zap_passive ∷ zap_active ∷ []
    else if str_eq id "modern-web-crawl"
    then scopeharbor_passive ∷ zap_passive ∷ zap_client_spider ∷ []
    else repository ∷ []

pub data ConnectionPolicy : Type 0 where
  compose_service : Text → ℕ → ConnectionPolicy
  host_gateway : Text → ℕ → List Text → ConnectionPolicy

abbrev pub connection_host : ConnectionPolicy → Text
connection_host (compose_service host port) = host
connection_host (host_gateway host port ips) = host

pub data TlsTrust : Type 0 where
  system custom_ca : TlsTrust

pub data Scheme : Type 0 where
  http https : Scheme

abbrev pub scheme_eq : Scheme → Scheme → Bool
scheme_eq http http = true
scheme_eq https https = true
scheme_eq _ _ = false

pub record AllowlistTarget : Type 0 where
  pub id : String
  pub scheme : Scheme
  pub hostname : Text
  pub port : ℕ
  pub base_path : Text
  pub connection : ConnectionPolicy
  pub profile_engines : List (String × List ScanEngine)
  pub disposable_demo : Bool
  pub trust : TlsTrust
  pub max_redirects : ℕ
  pub retired_modes : List ScanMode
  pub legacy_mode_order : List ScanMode

pub data PolicyError : Type 0 where
  unknown_profile no_engines duplicate_engines incompatible_engine missing_engine : PolicyError
  repository_profile connection_mismatch http_trust zap_without_demo : PolicyError
  duplicate_ids overlapping_paths invalid_path : PolicyError

abbrev pub is_allowed : Option (List ScanEngine) → List ScanEngine → Bool
is_allowed none engines = false
is_allowed (some allowed) engines = is_subset engines allowed

-- One turn of the loop of `validate_profile_engines`.
unfoldable pub validate_engines : String → List ScanEngine → Result PolicyError (Unit {0})
unfolding has_duplicate
validate_engines id [] =
    err (if is_none (scan_profile_for_id id) then unknown_profile else no_engines)
validate_engines id (e ∷ es) = do
  raise_if (is_none (scan_profile_for_id id)) unknown_profile
  raise_if (has_duplicate (e ∷ es)) duplicate_engines
  raise_if (not (is_allowed (allowed_engines id) (e ∷ es))) incompatible_engine
  raise_if (not (is_subset (required_engines id) (e ∷ es))) missing_engine

unfoldable pub validate_profile_engines :
    List (String × List ScanEngine) → Result PolicyError (Unit {0})
unfolding validate_engines
validate_profile_engines [] = ok tt
validate_profile_engines ((id, engines) ∷ rest) = do
  validate_engines id engines
  validate_profile_engines rest

-- `profile_engines.get(profile_id, ())`
unfoldable pub lookup_engines : String → List (String × List ScanEngine) → List ScanEngine
lookup_engines id [] = []
lookup_engines id ((key, engines) ∷ rest) =
    if str_eq key id then engines else lookup_engines id rest

unfoldable pub engines_for_profile : AllowlistTarget → String → List ScanEngine
engines_for_profile target id = lookup_engines id target.profile_engines

abbrev pub is_nonempty_modes : List ScanMode → Bool
is_nonempty_modes [] = false
is_nonempty_modes (m ∷ ms) = true

-- "localhost"
abbrev pub localhost : Text
localhost = b'l' ∷ b'o' ∷ b'c' ∷ b'a' ∷ b'l' ∷ b'h' ∷ b'o' ∷ b's' ∷ b't' ∷ []

-- A Compose service of another name than the origin's simple host.
abbrev pub is_mismatched : AllowlistTarget → ConnectionPolicy → Bool
is_mismatched target (compose_service host port) =
    not (text_eq host target.hostname)
    && not (contains b'.' target.hostname)
    && not (text_eq target.hostname localhost)
is_mismatched target (host_gateway host port ips) = false

abbrev pub is_system : TlsTrust → Bool
is_system system = true
is_system custom_ca = false

unfoldable pub validate_policy : AllowlistTarget → Result PolicyError (Unit {0})
validate_policy target = do
  raise_if
      (any (λ entry. str_eq entry.0 "repository") target.profile_engines
        && not (is_nonempty_modes target.legacy_mode_order))
      repository_profile
  raise_if (is_mismatched target target.connection) connection_mismatch
  raise_if (scheme_eq target.scheme http && not (is_system target.trust)) http_trust
  raise_if
      (not target.disposable_demo
        && any (λ entry. any is_zap_engine entry.1) target.profile_engines)
      zap_without_demo

-- `allowed_modes`, of a target with no legacy order: the modes of its profiles, each once.
unfoldable pub add_mode : ScanMode → List ScanMode → List ScanMode
add_mode mode [] = mode ∷ []
add_mode mode (m ∷ ms) = if mode_eq m mode then m ∷ ms else m ∷ add_mode mode ms

unfoldable pub add_modes : List ScanMode → List ScanMode → List ScanMode
unfolding add_mode
add_modes [] modes = modes
add_modes (m ∷ ms) modes = add_modes ms (add_mode m modes)

unfoldable pub profile_modes : List (String × List ScanEngine) → List ScanMode
profile_modes [] = []
profile_modes ((id, engines) ∷ rest) = elim (scan_profile_for_id id) [
  | none ↦ profile_modes rest
  | some profile ↦ profile.mode ∷ profile_modes rest
]

unfoldable pub allowed_modes : AllowlistTarget → List ScanMode
unfolding add_modes profile_modes
allowed_modes target =
    if is_nonempty_modes target.legacy_mode_order
    then target.legacy_mode_order
    else add_modes target.retired_modes (add_modes (profile_modes target.profile_engines) [])

-- `ScanAllowlist.get_target`
unfoldable pub get_target : String → List AllowlistTarget → Option AllowlistTarget
get_target allowlist_id [] = none
get_target allowlist_id (target ∷ rest) =
    if str_eq target.id allowlist_id then some target else get_target allowlist_id rest

abbrev pub same_origin : AllowlistTarget → AllowlistTarget → Bool
same_origin a b = scheme_eq a.scheme b.scheme && text_eq a.hostname b.hostname && (a.port == b.port)

abbrev pub is_within : Result PathError Bool → Bool
is_within (ok b) = b
is_within (err e) = false

-- One pair of the loop of `validate_unique_entries`. Base paths are canonical, so that
-- `path_is_within_scope` raises for none of them.
unfoldable pub overlaps : AllowlistTarget → AllowlistTarget → Bool
overlaps a b =
    same_origin a b
    && (is_within (path_is_within_scope a.base_path b.base_path)
        || is_within (path_is_within_scope b.base_path a.base_path))

unfoldable pub has_overlap : List AllowlistTarget → Bool
unfolding overlaps
has_overlap [] = false
has_overlap (target ∷ rest) = any (overlaps target) rest || has_overlap rest

unfoldable pub has_duplicate_id : List AllowlistTarget → Bool
has_duplicate_id [] = false
has_duplicate_id (target ∷ rest) =
    any (λ other. str_eq other.id target.id) rest || has_duplicate_id rest

unfoldable pub validate_unique_entries : List AllowlistTarget → Result PolicyError (Unit {0})
unfolding has_overlap has_duplicate_id
validate_unique_entries targets = do
  raise_if (has_duplicate_id targets) duplicate_ids
  raise_if (has_overlap targets) overlapping_paths
