-- ===== src/Http/ClientLaws.antt =====
-- What the guarded client sends, and what it returns.
use mathlib.Core.Path.{subst}
use web_security_audit_platf.Prelude.{
  Result-cases, Option-cases, sym, Bool-cases, inl, inr, ℕ, zero, suc, ◌+◌, ◌≤◌, ◌≡◌, ◌≢◌, Option,
  none, some, List, [], ◌∷◌, ◌++◌, length, length-append, All, arith, Result, ok, err,
}
use web_security_audit_platf.Security.Paths.{Text}
use web_security_audit_platf.Security.Policy.{AllowlistTarget}
use web_security_audit_platf.Security.Ssrf.{IpAddress, UrlParts, validate_destination}
use web_security_audit_platf.Http.Body.{read_limited_body_bound}
use web_security_audit_platf.Http.Client.{
  HttpError, Request, Answer, ScannerHttpResponse, Network, not_completed, open_connection,
  next_hop, is_redirect, attempt, answered, respond, validate_url, get,
}
use web_security_audit_platf.Http.Connections.{
  IsGuarded, IsValidated, opened-IsGuarded, opened-ne-not_completed, next_hop-ne-not_completed,
  next_hop_lem,
}

module _ (net : Network) (target : AllowlistTarget) (body_bytes_limit : ℕ) where
  -- A response that is returned, or an error that is not the end of the loop.
  abbrev Ends : Result HttpError ScannerHttpResponse → Type 0
  Ends (ok r) =
      IsGuarded net target body_bytes_limit
        (record { url = r.url; connection_ip = r.connection_ip })
      × (length r.redirect_chain ≤ target.max_redirects)
      × (length r.body ≤ body_bytes_limit)
  Ends (err e) = e ≢ not_completed

  -- Every request that was sent is guarded, there are at most `most` of them, and the call ends
  -- as it should.
  pub record IsSound (most : ℕ) (o : List Request × Result HttpError ScannerHttpResponse)
      : Type 0 where
    pub guarded : All (IsGuarded net target body_bytes_limit) o.0
    pub count : length o.0 ≤ most
    pub ends : Ends o.1

  stopped-IsSound :
      (most : ℕ) (sent : List Request) (e : HttpError)
      → All (IsGuarded net target body_bytes_limit) sent
      → length sent ≤ most
      → e ≢ not_completed
      → IsSound most (sent, err e)
  stopped-IsSound most sent e safe count ne = record { guarded = safe; count = count; ends = ne }

  returned-IsSound :
      (most : ℕ) (sent : List Request) (url : UrlParts) (ip : IpAddress) (chain : List Text)
      (a : Answer)
      → All (IsGuarded net target body_bytes_limit) sent
      → IsGuarded net target body_bytes_limit (record { url = url; connection_ip = ip })
      → length sent ≤ most
      → length chain ≤ target.max_redirects
      → IsSound most (sent, ok (respond net target body_bytes_limit url ip chain a))
  returned-IsSound most sent url ip chain a safe last count short = record {
    guarded = safe;
    count = count;
    ends = (last, short, read_limited_body_bound a.chunks body_bytes_limit);
  }

  answered-ne-not_completed :
      (o : Option Answer) → answered net target body_bytes_limit o ≢ err not_completed
  answered-ne-not_completed none = ground arith
  answered-ne-not_completed (some a) = ground arith

  attempt-IsSound :
      (attempts call : ℕ) (url : UrlParts) (ips : List IpAddress) (chain : List Text)
      (sent : List Request)
      → IsValidated net target body_bytes_limit url ips
      → All (IsGuarded net target body_bytes_limit) sent
      → length chain ≤ target.max_redirects
      → length chain + attempts ≡ target.max_redirects + 1
      → IsSound
          (length sent + attempts)
          (attempt net target body_bytes_limit attempts call url ips chain sent)
  unfolding attempt
  attempt-IsSound zero call url ips chain sent valid safe short left = absurd (omega arith)
  attempt-IsSound (suc attempts) call url ips chain sent valid safe short left =
      elim (Result-cases (open_connection net target body_bytes_limit call url ips)) [
        | inr (e, failed) ↦
            rw (failed, attempt)
              (stopped-IsSound (length sent + suc attempts) sent e safe (omega arith) (λ same.
                opened-ne-not_completed net target body_bytes_limit call url ips
                  (rw (← same) failed)))
        | inl (ip, opened) ↦
            let requests : List Request = record { url = url; connection_ip = ip } ∷ sent in
            let here = opened-IsGuarded net target body_bytes_limit call url ips ip valid opened in
            elim (Result-cases (answered net target body_bytes_limit (net.answer requests))) [
              | inr (e, failed) ↦
                  rw (opened, failed, attempt)
                    (stopped-IsSound (length sent + suc attempts) requests e (here, safe)
                      (omega arith)
                      (λ same.
                        answered-ne-not_completed (net.answer requests) (rw (← same) failed)))
              | inl (a, got) ↦ elim (Bool-cases (is_redirect a.status_code)) [
                | inr final ↦
                    rw (opened, got, final, attempt)
                      (returned-IsSound (length sent + suc attempts) requests url ip chain a
                        (here, safe) here (omega arith) short)
                | inl moved ↦
                    elim (Result-cases (next_hop net target body_bytes_limit url chain a)) [
                      | inr (e, failed) ↦
                          rw (opened, got, moved, failed, attempt)
                            (stopped-IsSound (length sent + suc attempts) requests e (here, safe)
                              (omega arith)
                              (λ same.
                                next_hop-ne-not_completed net target body_bytes_limit url chain a
                                  (rw (← same) failed)))
                      | inl ((hop, next_url, next_ips), followed) ↦
                          let (room, next_valid) =
                            next_hop_lem net target body_bytes_limit url chain a
                              (hop, next_url, next_ips) followed in
                          let most : length sent + suc attempts ≡ length requests + attempts =
                            omega arith in
                          let longer = length-append chain (hop ∷ []) in
                          rw (opened, got, moved, followed, most, attempt)
                            (attempt-IsSound attempts (call + 1) next_url next_ips
                              (chain ++ hop ∷ []) requests next_valid (here, safe) (omega arith)
                              (omega arith))
                    ]
              ]
            ]
      ]

  validate_url_lem :
      (raw_url : Text) (next : UrlParts × List IpAddress)
      → validate_url net target body_bytes_limit raw_url ≡ ok next
      → IsValidated net target body_bytes_limit next.0 next.1
  unfolding validate_url
  validate_url_lem raw_url next h = elim (Option-cases (net.normalize raw_url)) [
    | inl none_left ↦ ground arith
    | inr (url, read) ↦
        elim (Result-cases
          (validate_destination net.parse url target (net.resolve target.connection))) [
            | inl (ips, valid) ↦ ground arith
            | inr (e, failed) ↦ ground arith
          ]
  ]

  validate_url-ne-not_completed :
      (raw_url : Text) → validate_url net target body_bytes_limit raw_url ≢ err not_completed
  unfolding validate_url
  validate_url-ne-not_completed raw_url = ground arith

  -- Whatever the web answers, every request that a call sends is to a URL of the policy's origin and
  -- scope on a connection pinned to an address that the policy permits, there are at most one more
  -- than the policy's redirects, and the call ends with a response from such a URL and address, no
  -- longer than the body limit, after no more redirects than the policy allows, or with an error
  -- other than "request did not complete".
  pub get-IsSound :
      (raw_url : Text)
      → IsSound (target.max_redirects + 1) (get net target body_bytes_limit raw_url)
  unfolding get
  get-IsSound raw_url = elim (Result-cases (validate_url net target body_bytes_limit raw_url)) [
    | inr (e, failed) ↦
        rw (failed, get)
          (stopped-IsSound (target.max_redirects + 1) [] e tt (omega arith)
            (λ same. validate_url-ne-not_completed raw_url (rw (← same) failed)))
    | inl ((url, ips), read) ↦
        let most : target.max_redirects + 1 ≡ 0 + (target.max_redirects + 1) = omega arith in
        rw (read, get)
          (subst
            (λ n.
              IsSound n
                (attempt net target body_bytes_limit (target.max_redirects + 1) 1 url ips [] []))
            (sym most)
            (attempt-IsSound (target.max_redirects + 1) 1 url ips [] []
              (validate_url_lem raw_url (url, ips) read) tt (omega arith) (omega arith)))
  ]
