-- ===== src/Relay/Replay.antt =====
-- No capability is accepted twice.
use mathlib.Core.Path.{subst}
use web_security_audit_platf.Prelude.{
  ℕ, ◌≤◌, ◌≡◌, ◌≢◌, ◌⊎◌, inl, inr, refl, sym, ◌∙◌, ap, Bool, true, false, ◌&&◌, ◌||◌, List, [], ◌∷◌,
  ◌++◌, length, arith, leb, ltb, ◌==◌, ==_iff, Result, ok, err, Bool-cases,
}
use web_security_audit_platf.Security.Paths.{Text, text_eq}
use web_security_audit_platf.Security.PathLaws.{text_eq_refl}
use web_security_audit_platf.Findings.Utf8.{encode}
use web_security_audit_platf.Relay.Capability.{
  CapabilityError, RelayCapability, Codec, ReplayGuard, RelayRequest, live_entries, has_nonce,
  admit, consume, read_capability, open_token, check_capability, validate_relay_secret,
  consume_capability, return_capability, verify_relay_capability, serve,
}

-- The entry of a nonce is in the table.
unfoldable has_entry : Text → ℕ → List (Text × ℕ) → Bool
has_entry nonce expires [] = false
has_entry nonce expires ((n, e) ∷ rest) =
    (text_eq n nonce && (e == expires)) || has_entry nonce expires rest

has_entry-live :
    (nonce : Text) (expires current : ℕ) (seen : List (Text × ℕ))
    → current ≤ expires
    → has_entry nonce expires seen ≡ true
    → has_entry nonce expires (live_entries current seen) ≡ true
unfolding has_entry live_entries
has_entry-live nonce expires current [] le h = h
has_entry-live nonce expires current ((n, e) ∷ rest) le h =
    let ih = has_entry-live nonce expires current rest le in ground arith

has_entry-nonce :
    (nonce : Text) (expires : ℕ) (seen : List (Text × ℕ))
    → has_entry nonce expires seen ≡ true
    → has_nonce nonce seen ≡ true
unfolding has_entry has_nonce
has_entry-nonce nonce expires [] h = cc
has_entry-nonce nonce expires ((n, e) ∷ rest) h =
    let ih = has_entry-nonce nonce expires rest in ground arith

has_entry-append :
    (nonce : Text) (expires : ℕ) (xs ys : List (Text × ℕ))
    → has_entry nonce expires xs ≡ true
    → has_entry nonce expires (xs ++ ys) ≡ true
unfolding has_entry
has_entry-append nonce expires [] ys h = cc
has_entry-append nonce expires ((n, e) ∷ xs) ys h =
    let ih = has_entry-append nonce expires xs ys in ground arith

has_entry-last :
    (nonce : Text) (expires : ℕ) (xs : List (Text × ℕ))
    → has_entry nonce expires (xs ++ (nonce, expires) ∷ []) ≡ true
unfolding has_entry
has_entry-last nonce expires [] = rw (text_eq_refl nonce, (==_iff expires expires).1 refl) refl
has_entry-last nonce expires ((n, e) ∷ xs) =
    let ih = has_entry-last nonce expires xs in ground arith

-- At `t` the capability has expired, or the table still has it.
abbrev Remembers : Text → ℕ → ℕ → ReplayGuard → Type 0
Remembers nonce expires t guard =
    (ltb expires t ≡ true) ⊎ (has_entry nonce expires guard.seen ≡ true)

admit-entry :
    (nonce : Text) (expires maximum : ℕ) (n : Text) (e : ℕ) (live : List (Text × ℕ))
    → has_entry nonce expires live ≡ true
    → has_entry nonce expires (admit maximum n e live).1 ≡ true
admit-entry nonce expires maximum n e live h = elim (Bool-cases (has_nonce n live)) [
  | inl used ↦ rw used h
  | inr fresh ↦ elim (Bool-cases (leb maximum (length live))) [
    | inl full ↦ rw (fresh, full) h
    | inr room ↦ rw (fresh, room) (has_entry-append nonce expires live _ h)
  ]
]

consume-Remembers :
    (nonce : Text) (expires t : ℕ) (n : Text) (e current : ℕ) (guard : ReplayGuard)
    → t ≤ current
    → Remembers nonce expires t guard
    → Remembers nonce expires current (consume n e current guard).1
unfolding consume
consume-Remembers nonce expires t n e current guard le h = elim (Bool-cases (ltb expires current)) [
  | inl expired ↦ inl expired
  | inr live ↦ elim h [
    | inl before ↦ absurd (ground arith)
    | inr entry ↦ inr (
        admit-entry nonce expires guard.maximum_entries n e (live_entries current guard.seen)
          (has_entry-live nonce expires current guard.seen (ground arith) entry))
  ]
]

later-Remembers :
    (nonce : Text) (expires t current : ℕ) (guard : ReplayGuard)
    → t ≤ current
    → Remembers nonce expires t guard
    → Remembers nonce expires current guard
later-Remembers nonce expires t current guard le (inl before) = inl (ground arith)
later-Remembers nonce expires t current guard le (inr entry) = inr entry

consume_capability-Remembers :
    (nonce : Text) (expires t current : ℕ) (guard : ReplayGuard)
    (r : Result CapabilityError RelayCapability)
    → t ≤ current
    → Remembers nonce expires t guard
    → Remembers nonce expires current (consume_capability current guard r).1
consume_capability-Remembers nonce expires t current guard (err e) le h =
    later-Remembers nonce expires t current guard le h
consume_capability-Remembers nonce expires t current guard (ok c) le h =
    consume-Remembers nonce expires t c.nonce c.expires_at current guard le h

-- The requests come in the order of their times, from `t` on, up to `last`.
abbrev pub IsOrdered : ℕ → List RelayRequest → ℕ → Type 0
IsOrdered t [] last = t ≤ last
IsOrdered t (r ∷ rs) last = (t ≤ r.current) × IsOrdered r.current rs last

serve-Remembers :
    (codec : Codec) (secret nonce : Text) (expires t : ℕ) (rs : List RelayRequest) (last : ℕ)
    (guard : ReplayGuard)
    → IsOrdered t rs last
    → Remembers nonce expires t guard
    → Remembers nonce expires last (serve codec secret rs guard)
unfolding serve verify_relay_capability
serve-Remembers codec secret nonce expires t [] last guard order h =
    later-Remembers nonce expires t last guard order h
serve-Remembers codec secret nonce expires t (r ∷ rs) last guard order h =
    serve-Remembers codec secret nonce expires r.current rs last _ order.1 (
      consume_capability-Remembers nonce expires t r.current guard (read_capability codec secret r)
        order.0 h)

consume-accepted :
    (n : Text) (e current : ℕ) (guard : ReplayGuard)
    → (consume n e current guard).0 ≡ ok tt
    → (has_nonce n (live_entries current guard.seen) ≡ false)
      × (has_entry n e (consume n e current guard).1.seen ≡ true)
unfolding consume
consume-accepted n e current guard h = go (live_entries current guard.seen) h
  where
    go :
        (live : List (Text × ℕ))
        → (admit guard.maximum_entries n e live).0 ≡ ok tt
        → (has_nonce n live ≡ false)
          × (has_entry n e (admit guard.maximum_entries n e live).1 ≡ true)
    go live h = elim (Bool-cases (has_nonce n live)) [
      | inl used ↦ absurd (ground arith)
      | inr fresh ↦ elim (Bool-cases (leb guard.maximum_entries (length live))) [
        | inl full ↦ absurd (ground arith)
        | inr room ↦ (fresh, rw (fresh, room) (has_entry-last n e live))
      ]
    ]

-- What the checks of an accepted token say.
pub record IsReadAs (codec : Codec) (secret : Text) (r : RelayRequest) (c : RelayCapability)
    : Type 0 where
  pub opened : open_token codec (encode secret) r.token ≡ ok c
  pub unexpired : r.current ≤ c.expires_at

read_capability-IsReadAs :
    (codec : Codec) (secret : Text) (r : RelayRequest) (c : RelayCapability)
    → read_capability codec secret r ≡ ok c
    → IsReadAs codec secret r c
unfolding read_capability validate_relay_secret check_capability
read_capability-IsReadAs codec secret r c h = ground arith

consume_capability-accepted :
    (current : ℕ) (guard : ReplayGuard) (r : Result CapabilityError RelayCapability)
    (c : RelayCapability)
    → (consume_capability current guard r).0 ≡ ok c
    → (r ≡ ok c)
      × ((consume c.nonce c.expires_at current guard).0 ≡ ok tt)
      × ((consume_capability current guard r).1 ≡ (consume c.nonce c.expires_at current guard).1)
consume_capability-accepted current guard (err e) c h = cc
consume_capability-accepted current guard (ok a) c h =
    let (consumed, same) = go (consume a.nonce a.expires_at current guard).0 refl h in
    subst
      (λ c.
        ◌≡◌ {A = Result CapabilityError RelayCapability} (ok a) (ok c)
        × ((consume c.nonce c.expires_at current guard).0 ≡ ok tt)
        × ((consume a.nonce a.expires_at current guard).1
            ≡ (consume c.nonce c.expires_at current guard).1))
      same (refl, consumed, refl)
  where
    go :
        (x : Result CapabilityError (Unit {0}))
        → (consume a.nonce a.expires_at current guard).0 ≡ x
        → return_capability a x ≡ ok c
        → ((consume a.nonce a.expires_at current guard).0 ≡ ok tt) × (a ≡ c)
    go (ok u) e same = (e, ground arith)
    go (err x) e same = cc

ok-injective :
    (d c : RelayCapability) → ◌≡◌ {A = Result CapabilityError RelayCapability} (ok d) (ok c) → d ≡ c
ok-injective d c h = ground arith

consume_refused :
    (n : Text) (e current : ℕ) (guard : ReplayGuard)
    → current ≤ e
    → Remembers n e current guard
    → (consume n e current guard).0 ≢ ok tt
consume_refused n e current guard le (inl expired) h = ground arith
consume_refused n e current guard le (inr entry) h =
    let (fresh, added) = consume-accepted n e current guard h in
    let used = has_entry-nonce n e _ (has_entry-live n e current guard.seen le entry) in
    ground arith

-- Once a token has been accepted, the relay never accepts it again, as long as its clock does not run
-- backwards: whatever requests it serves in between, the same token, for whatever policy and URL, is refused at every later time.
pub verify_relay_capability_once :
    (codec : Codec) (secret : Text) (first : RelayRequest) (guard : ReplayGuard)
    (c : RelayCapability)
    → (verify_relay_capability codec secret first guard).0 ≡ ok c
    → (rs : List RelayRequest) (again : RelayRequest) → IsOrdered first.current rs again.current
    → again.token ≡ first.token
    → (d : RelayCapability)
    → (verify_relay_capability codec secret again
        (serve codec secret rs (verify_relay_capability codec secret first guard).1)).0
      ≢ ok d
unfolding verify_relay_capability
verify_relay_capability_once codec secret first guard c accepted rs again order same d twice =
    let guard1 = (verify_relay_capability codec secret first guard).1 in
    let guard2 = serve codec secret rs guard1 in
    let (read1, consumed1, guard1_eq) =
      consume_capability-accepted first.current guard (read_capability codec secret first) c
        accepted in
    let (read2, consumed2, guard2_eq) =
      consume_capability-accepted again.current guard2 (read_capability codec secret again) d
        twice in
    let first_read = read_capability-IsReadAs codec secret first c read1 in
    let again_read = read_capability-IsReadAs codec secret again d read2 in
    let one : d ≡ c =
      ok-injective d c (
        sym again_read.opened ∙ (ap (open_token codec (encode secret)) same ∙ first_read.opened)) in
    let entry = (consume-accepted c.nonce c.expires_at first.current guard consumed1).1 in
    let remembered =
      serve-Remembers codec secret c.nonce c.expires_at first.current rs again.current guard1 order
        (inr (subst (λ g. has_entry c.nonce c.expires_at g.seen ≡ true) (sym guard1_eq) entry)) in
    consume_refused c.nonce c.expires_at again.current guard2
      (subst (λ x. again.current ≤ x.expires_at) one again_read.unexpired) remembered
      (subst (λ x. (consume x.nonce x.expires_at again.current guard2).0 ≡ ok tt) one consumed2)
