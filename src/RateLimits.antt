-- ===== src/RateLimits.antt =====
-- backend/app/ops/rate_limits.py. The log is a list, the newest entry first; the advisory lock lets the
-- transactions of a scope run one after the other.
use web_security_audit_platf.Prelude.{
  ℕ, ◌+◌, String, Bool, true, false, not, ◌&&◌, List, [], ◌∷◌, leb, ◌==◌, str_eq, if◌then◌else◌,
  Result, ok, err,
}
pub mod Window
mod Examples

-- Whose requests, and for what.
pub record RateScope : Type 0 where
  pub workspace_id : String
  pub user_id : String
  pub action : String

pub record ApiRateLimitLog : Type 0 where
  pub scope : RateScope
  pub allowed : Bool
  pub created_at : ℕ

pub record RateLimit : Type 0 where
  pub max_requests : ℕ
  pub window_seconds : ℕ

abbrev pub scope_eq : RateScope → RateScope → Bool
scope_eq a b =
    str_eq a.workspace_id b.workspace_id && str_eq a.user_id b.user_id && str_eq a.action b.action

-- `created_at >= now - window`, of an allowed request in the scope.
abbrev pub is_recent : RateLimit → RateScope → ℕ → ApiRateLimitLog → Bool
is_recent limit scope now entry =
    scope_eq entry.scope scope
    && (entry.allowed && leb now (entry.created_at + limit.window_seconds))

unfoldable pub count_recent : RateLimit → RateScope → ℕ → List ApiRateLimitLog → ℕ
count_recent limit scope now [] = 0
count_recent limit scope now (entry ∷ log) =
    let rest = count_recent limit scope now log in
    if is_recent limit scope now entry then 1 + rest else rest

unfoldable pub is_limited : RateLimit → RateScope → ℕ → List ApiRateLimitLog → Bool
unfolding count_recent
is_limited limit scope now log =
    if limit.max_requests == 0
    then true
    else if limit.window_seconds == 0
    then false
    else leb limit.max_requests (count_recent limit scope now log)

pub data RateLimitError : Type 0 where
  too_many_requests : RateLimitError

-- The two clocks of a call: `created_at` is the database's `now()`, the start of the transaction, and the
-- window is measured back from the time of the check, after the lock.
pub record CallTime : Type 0 where
  pub started : ℕ
  pub checked : ℕ

abbrev pub log_entry : RateScope → CallTime → Bool → ApiRateLimitLog
log_entry scope time allowed = record {
  scope = scope;
  allowed = allowed;
  created_at = time.started;
}

-- The result, the log that is committed if the transaction rolls back afterwards, and the log if it
-- commits: a refusal is committed at once, an allowed entry is only flushed.
pub record Enforced : Type 0 where
  pub result : Result RateLimitError (Unit {0})
  pub rolled_back : List ApiRateLimitLog
  pub committed : List ApiRateLimitLog

unfoldable pub enforce_api_rate_limit :
    RateLimit → RateScope → CallTime → List ApiRateLimitLog → Enforced
unfolding is_limited
enforce_api_rate_limit limit scope time log =
    if is_limited limit scope time.checked log
    then record {
      result = err too_many_requests;
      rolled_back = log_entry scope time false ∷ log;
      committed = log_entry scope time false ∷ log;
    }
    else record { result = ok tt; rolled_back = log; committed = log_entry scope time true ∷ log }

-- A request: its scope, its times, and whether its handler commits.
pub record Request : Type 0 where
  pub scope : RateScope
  pub time : CallTime
  pub commits : Bool

abbrev pub log_after : Bool → Enforced → List ApiRateLimitLog
log_after commits e = if commits then e.committed else e.rolled_back

-- Requests, one after the other: the lock is held until the transaction ends.
unfoldable pub enforce_all : RateLimit → List Request → List ApiRateLimitLog → List ApiRateLimitLog
unfolding enforce_api_rate_limit
enforce_all limit [] log = log
enforce_all limit (r ∷ rest) log =
    enforce_all limit rest (log_after r.commits (enforce_api_rate_limit limit r.scope r.time log))
