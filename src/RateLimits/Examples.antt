-- ===== src/RateLimits/Examples.antt =====
-- Two requests a minute.
use web_security_audit_platf.Prelude.{
  ◌≤◌, ◌≡◌, ℕ, ◌+◌, Bool, true, false, arith, refl, List, [], ◌∷◌, err,
}
use web_security_audit_platf.RateLimits.{
  RateScope, RateLimit, is_limited, count_recent, enforce_api_rate_limit, enforce_all,
  too_many_requests, CallTime, Request,
}
use web_security_audit_platf.RateLimits.Window.{count_within, enforce_all-IsWithinLimit}

abbrev limit : RateLimit
limit = record { max_requests = 2; window_seconds = 60 }

abbrev caller : RateScope
caller = record { workspace_id = "ws-1"; user_id = "u-1"; action = "scan" }

abbrev at : ℕ → CallTime
at t = record { started = t; checked = t + 1 }

abbrev request : ℕ → Bool → Request
request t commits = record { scope = caller; time = at t; commits = commits }

-- The second one rolls back.
abbrev requests : List Request
requests = request 10 true ∷ request 20 false ∷ request 30 true ∷ request 40 true ∷ []

third_is_refused :
    (enforce_api_rate_limit limit caller
      (at 30)
      (enforce_all limit (request 10 true ∷ request 20 true ∷ []) [])).result
    ≡ err too_many_requests
unfolding enforce_api_rate_limit enforce_all is_limited count_recent
third_is_refused = refl

enforce_all-IsWithinLimit_example :
    count_within limit 1 caller 40 (enforce_all limit requests []) ≤ limit.max_requests
enforce_all-IsWithinLimit_example =
    enforce_all-IsWithinLimit limit 1 caller requests 40 refl
      (omega arith, (omega arith, (omega arith, (omega arith, tt))))
