-- ===== src/RateLimits/Window.antt =====
-- No window of the limit's length holds more allowed requests than the limit.
use mathlib.Core.Path.{subst}
use web_security_audit_platf.Prelude.{
  ℕ, ◌+◌, ◌≤◌, ◌≡◌, Bool, true, false, ◌&&◌, List, [], ◌∷◌, All, leb, ◌==◌, arith, Bool-cases, inl,
  inr, if◌then◌else◌, eq_iff,
}
use web_security_audit_platf.RateLimits.{
  RateScope, ApiRateLimitLog, RateLimit, scope_eq, is_recent, count_recent, is_limited,
  enforce_api_rate_limit, enforce_all, CallTime, log_entry, Request, log_after,
}

-- Allowed requests of the scope that started in the window that ends at `t` and is shorter than the limit's
-- by `delay`.
abbrev pub is_within : RateLimit → ℕ → RateScope → ℕ → ApiRateLimitLog → Bool
is_within limit delay scope t entry =
    is_recent limit scope (t + delay) entry && leb entry.created_at t

unfoldable pub count_within : RateLimit → ℕ → RateScope → ℕ → List ApiRateLimitLog → ℕ
count_within limit delay scope t [] = 0
count_within limit delay scope t (entry ∷ log) =
    let rest = count_within limit delay scope t log in
    if is_within limit delay scope t entry then 1 + rest else rest

-- A request that is checked at most `delay` after its transaction started.
abbrev pub IsPrompt : ℕ → Request → Type 0
IsPrompt delay r = r.time.checked ≤ r.time.started + delay

module _ (limit : RateLimit) (delay : ℕ) (scope : RateScope) where
  -- A window that starts later than `now`'s holds no older request.
  count_within-le-count_recent :
      (t now : ℕ) (log : List ApiRateLimitLog)
      → now ≤ t + delay
      → count_within limit delay scope t log ≤ count_recent limit scope now log
  unfolding count_within count_recent
  count_within-le-count_recent t now [] le = omega arith
  count_within-le-count_recent t now (entry ∷ log) le =
      let ih = count_within-le-count_recent t now log le in ground arith

  -- Every window of the log is within the limit.
  abbrev pub IsWithinLimit : List ApiRateLimitLog → Type 0
  IsWithinLimit log = (t : ℕ) → count_within limit delay scope t log ≤ limit.max_requests

  scope_eq-same : (other : RateScope) → scope_eq other scope ≡ true → other ≡ scope
  scope_eq-same other h =
      let workspace = (eq_iff other.workspace_id scope.workspace_id).0 (ground arith) in
      let user = (eq_iff other.user_id scope.user_id).0 (ground arith) in
      let action = (eq_iff other.action scope.action).0 (ground arith) in cc

  -- A request that is allowed and counted finds room in the window.
  admitted :
      (other : RateScope) (time : CallTime) (log : List ApiRateLimitLog) (t : ℕ)
      → (limit.window_seconds == 0) ≡ false
      → time.checked ≤ time.started + delay
      → is_limited limit other time.checked log ≡ false
      → is_within limit delay scope t (log_entry other time true) ≡ true
      → 1 + count_within limit delay scope t log ≤ limit.max_requests
  unfolding is_limited
  admitted other time log t positive prompt free counted =
      let same = scope_eq-same other (ground arith) in
      let room : leb limit.max_requests (count_recent limit other time.checked log) ≡ false =
        ground arith in
      let free : leb limit.max_requests (count_recent limit scope time.checked log) ≡ false =
        subst (λ s. leb limit.max_requests (count_recent limit s time.checked log) ≡ false) same
          room in
      let le = count_within-le-count_recent t time.checked log (ground arith) in ground arith

  allowed-IsWithinLimit :
      (other : RateScope) (time : CallTime) (log : List ApiRateLimitLog)
      → (limit.window_seconds == 0) ≡ false
      → time.checked ≤ time.started + delay
      → is_limited limit other time.checked log ≡ false
      → IsWithinLimit log
      → IsWithinLimit (log_entry other time true ∷ log)
  unfolding count_within
  allowed-IsWithinLimit other time log positive prompt free h t =
      elim (Bool-cases (is_within limit delay scope t (log_entry other time true))) [
        | inl counted ↦
            rw (counted, count_within) (admitted other time log t positive prompt free counted)
        | inr uncounted ↦ rw (uncounted, count_within) (h t)
      ]

  refused-IsWithinLimit :
      (other : RateScope) (time : CallTime) (log : List ApiRateLimitLog)
      → IsWithinLimit log
      → IsWithinLimit (log_entry other time false ∷ log)
  unfolding count_within
  refused-IsWithinLimit other time log h t = let ih = h t in ground arith

  enforce-IsWithinLimit :
      (r : Request) (log : List ApiRateLimitLog)
      → (limit.window_seconds == 0) ≡ false
      → IsPrompt delay r
      → IsWithinLimit log
      → IsWithinLimit (log_after r.commits (enforce_api_rate_limit limit r.scope r.time log))
  unfolding enforce_api_rate_limit
  enforce-IsWithinLimit r log positive prompt h =
      elim (Bool-cases (is_limited limit r.scope r.time.checked log)) [
        | inl limited ↦ elim (Bool-cases r.commits) [
          | inl commits ↦
              rw (limited, enforce_api_rate_limit, commits)
                (refused-IsWithinLimit r.scope r.time log h)
          | inr rolls_back ↦
              rw (limited, enforce_api_rate_limit, rolls_back)
                (refused-IsWithinLimit r.scope r.time log h)
        ]
        | inr free ↦ elim (Bool-cases r.commits) [
          | inl commits ↦
              rw (free, enforce_api_rate_limit, commits)
                (allowed-IsWithinLimit r.scope r.time log positive prompt free h)
          | inr rolls_back ↦ rw (free, enforce_api_rate_limit, rolls_back) h
        ]
      ]

  enforce_all-keeps :
      (requests : List Request) (log : List ApiRateLimitLog)
      → (limit.window_seconds == 0) ≡ false
      → All (IsPrompt delay) requests
      → IsWithinLimit log
      → IsWithinLimit (enforce_all limit requests log)
  unfolding enforce_all
  enforce_all-keeps [] log positive prompt h = h
  enforce_all-keeps (r ∷ rest) log positive prompt h =
      enforce_all-keeps rest _ positive prompt.1 (enforce-IsWithinLimit r log positive prompt.0 h)

-- From an empty log, whatever requests arrive, of whatever callers, whether their handlers commit or roll back,
-- if each is checked at most `delay` seconds after its transaction started: the allowed requests of
-- a caller for an action that committed, and that started in a span of the limit's window less
-- `delay`, are at most `max_requests`, if the window is not empty.
pub enforce_all-IsWithinLimit :
    (limit : RateLimit) (delay : ℕ) (scope : RateScope) (requests : List Request) (t : ℕ)
    → (limit.window_seconds == 0) ≡ false
    → All (IsPrompt delay) requests
    → count_within limit delay scope t (enforce_all limit requests []) ≤ limit.max_requests
unfolding count_within
enforce_all-IsWithinLimit limit delay scope requests t positive prompt =
    enforce_all-keeps limit delay scope requests [] positive prompt (λ t. omega arith) t
