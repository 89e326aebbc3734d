-- ===== src/Contracts.antt =====
-- The enums and scan profiles of backend/app/core/contracts.py, with the profile data of
-- shared/contracts.json that it loads.
use web_security_audit_platf.Prelude.{
  String, Bool, true, false, Option, none, some, List, [], ◌∷◌, str_eq, if◌then◌else◌, find,
}

pub data ScanMode : Type 0 where
  passive active_demo modern_web_crawl ajax_short repo : ScanMode

pub data ScanStatus : Type 0 where
  queued validating running normalizing completed completed_with_warnings failed cancelled :
      ScanStatus

pub data ScanStep : Type 0 where
  target_validation custom_crawl custom_checks zap_spider zap_passive zap_active : ScanStep
  zap_client_spider zap_ajax repo_secrets_scan repo_dependency_scan : ScanStep
  normalizing_findings generating_reports generating_ai_explanations : ScanStep

abbrev pub mode_eq : ScanMode → ScanMode → Bool
mode_eq passive passive = true
mode_eq active_demo active_demo = true
mode_eq modern_web_crawl modern_web_crawl = true
mode_eq ajax_short ajax_short = true
mode_eq repo repo = true
mode_eq _ _ = false

-- A string enum member is its text.
abbrev pub mode_value : ScanMode → String
mode_value passive = "passive"
mode_value active_demo = "active_demo"
mode_value modern_web_crawl = "modern_web_crawl"
mode_value ajax_short = "ajax_short"
mode_value repo = "repo"

-- The fields that code reads; label and description are texts for people.
pub record ScanProfile : Type 0 where
  pub id : String
  pub mode : ScanMode
  pub required_acknowledgements : List String
  pub requires_repo_path : Bool
  pub local_demo_only : Bool
  pub reports_enabled : Bool
  pub ai_enabled : Bool

abbrev pub scan_profiles : List ScanProfile
scan_profiles =
    record {
      id = "passive-web";
      mode = passive;
      required_acknowledgements = "authorized_target" ∷ [];
      requires_repo_path = false;
      local_demo_only = false;
      reports_enabled = true;
      ai_enabled = true;
    }
    ∷ record {
      id = "active-demo";
      mode = active_demo;
      required_acknowledgements = "authorized_target" ∷ "active_testing_local_demo" ∷ [];
      requires_repo_path = false;
      local_demo_only = true;
      reports_enabled = true;
      ai_enabled = true;
    }
    ∷ record {
      id = "modern-web-crawl";
      mode = modern_web_crawl;
      required_acknowledgements = "authorized_target" ∷ "browser_crawl_local_demo" ∷ [];
      requires_repo_path = false;
      local_demo_only = true;
      reports_enabled = false;
      ai_enabled = false;
    }
    ∷ record {
      id = "repository";
      mode = repo;
      required_acknowledgements = "authorized_repository" ∷ [];
      requires_repo_path = true;
      local_demo_only = false;
      reports_enabled = true;
      ai_enabled = false;
    }
    ∷ []

unfoldable pub scan_profile_for_id : String → Option ScanProfile
scan_profile_for_id profile_id = find (λ p. str_eq p.id profile_id) scan_profiles

-- Each mode has one profile, so the dictionary by mode is a search too.
unfoldable pub default_scan_profile_for_mode : String → Option ScanProfile
default_scan_profile_for_mode mode = find (λ p. str_eq (mode_value p.mode) mode) scan_profiles

unfoldable pub scan_profile_for_values : Option String → String → Option ScanProfile
unfolding scan_profile_for_id default_scan_profile_for_mode
scan_profile_for_values none mode = default_scan_profile_for_mode mode
scan_profile_for_values (some profile_id) mode =
    if str_eq profile_id ""
    then default_scan_profile_for_mode mode
    else elim (scan_profile_for_id profile_id) [
      | none ↦ none
      | some profile ↦ if str_eq (mode_value profile.mode) mode then some profile else none
    ]
