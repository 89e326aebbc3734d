-- ===== src/Scans/Triples.antt =====
-- Pre- and postconditions of a job's actions, one rule for each way to build an action. `Q` speaks
-- of a result, `R` of an exception.
use web_security_audit_platf.Prelude.{◌≡◌, refl, Bool, true, false, if◌then◌else◌, Result, ok, err}
use web_security_audit_platf.Scans.Lease.{JobError}
use web_security_audit_platf.Scans.World.{
  World, Exec, pure, raise, lift, catch, ◌>>=◌, get_scan, now, handle, continue,
}

abbrev pub Post {ℓ} :
    {A : Type ℓ}
    → (A → World → Type 0)
    → (JobError → World → Type 0)
    → Result JobError A × World
    → Type 0
Post Q R (ok a, w) = Q a w
Post Q R (err e, w) = R e w

pub record Triple {ℓ} {A : Type ℓ} (P : World → Type 0) (m : Exec A) (Q : A → World → Type 0)
    (R : JobError → World → Type 0) : Type 0 where
  pub at : (w : World) → P w → Post Q R (m w)

module _ {ℓ} {A : Type ℓ} {Q : A → World → Type 0} {R : JobError → World → Type 0} where
  Post-handle :
      {R' : JobError → World → Type 0} (h : JobError → Exec A) (x : Result JobError A × World)
      → ((e : JobError) → Triple (R' e) (h e) Q R)
      → Post Q R' x
      → Post Q R (handle h x)
  Post-handle h (ok a, w) th q = q
  Post-handle h (err e, w) th r = (th e).at w r

  Post-weaken :
      {Q' : A → World → Type 0} {R' : JobError → World → Type 0} (x : Result JobError A × World)
      → ((a : A) (w : World) → Q' a w → Q a w)
      → ((e : JobError) (w : World) → R' e w → R e w)
      → Post Q' R' x
      → Post Q R x
  Post-weaken (ok a, w) hq hr q = hq a w q
  Post-weaken (err e, w) hq hr r = hr e w r

module _ {ℓ κ} {A : Type ℓ} {B : Type κ} {Q : A → World → Type 0} {S : B → World → Type 0}
    {R : JobError → World → Type 0} where
  Post-continue :
      (f : A → Exec B) (x : Result JobError A × World)
      → ((a : A) → Triple (Q a) (f a) S R)
      → Post Q R x
      → Post S R (continue x.0 f x.1)
  Post-continue f (ok a, w) tf q = (tf a).at w q
  Post-continue f (err e, w) tf r = r

-- `m` keeps `P`, whether it returns or raises.
abbrev pub Keeps {ℓ} : {A : Type ℓ} → (World → Type 0) → Exec A → Type 0
Keeps P m = Triple P m (λ a. P) (λ e. P)

module _ {ℓ} {A : Type ℓ} {P : World → Type 0} {Q : A → World → Type 0}
    {R : JobError → World → Type 0} where
  pub Triple-pure : (a : A) → ((w : World) → P w → Q a w) → Triple P (pure a) Q R
  unfolding pure
  Triple-pure a h = record { at = h }

  pub Triple-raise : (e : JobError) → ((w : World) → P w → R e w) → Triple P (raise e) Q R
  unfolding raise
  Triple-raise e h = record { at = h }

  pub Triple-lift :
      (r : Result JobError A)
      → ((a : A) (w : World) → r ≡ ok a → P w → Q a w)
      → ((e : JobError) (w : World) → r ≡ err e → P w → R e w)
      → Triple P (lift r) Q R
  unfolding lift
  Triple-lift (ok a) h k = record { at = λ w p. h a w refl p }
  Triple-lift (err e) h k = record { at = λ w p. k e w refl p }

  pub Triple-if :
      (b : Bool) (m n : Exec A)
      → (b ≡ true → Triple P m Q R)
      → (b ≡ false → Triple P n Q R)
      → Triple P (if b then m else n) Q R
  Triple-if true m n h k = h refl
  Triple-if false m n h k = k refl

  pub Triple-catch :
      {R' : JobError → World → Type 0} (m : Exec A) (h : JobError → Exec A)
      → Triple P m Q R'
      → ((e : JobError) → Triple (R' e) (h e) Q R)
      → Triple P (catch m h) Q R
  unfolding catch
  Triple-catch m h tm th = record { at = λ w p. Post-handle h (m w) th (tm.at w p) }

  -- A stronger precondition and weaker postconditions.
  pub Triple-weaken :
      {P' : World → Type 0} {Q' : A → World → Type 0} {R' : JobError → World → Type 0} (m : Exec A)
      → Triple P' m Q' R'
      → ((w : World) → P w → P' w)
      → ((a : A) (w : World) → Q' a w → Q a w)
      → ((e : JobError) (w : World) → R' e w → R e w)
      → Triple P m Q R
  Triple-weaken m t hp hq hr = record { at = λ w p. Post-weaken (m w) hq hr (t.at w (hp w p)) }

module _ {ℓ κ} {A : Type ℓ} {B : Type κ} {P : World → Type 0} {Q : A → World → Type 0}
    {S : B → World → Type 0} {R : JobError → World → Type 0} where
  pub Triple-bind :
      (m : Exec A) (f : A → Exec B)
      → Triple P m Q R
      → ((a : A) → Triple (Q a) (f a) S R)
      → Triple P (m >>= f) S R
  unfolding ◌>>=◌
  Triple-bind m f tm tf = record { at = λ w p. Post-continue f (m w) tf (tm.at w p) }

Post-both {ℓ} :
    {A : Type ℓ} (P : World → Type 0) (x : Result JobError A × World)
    → Post (λ a. P) (λ e. P) x
    → P x.1
Post-both P (ok a, w) p = p
Post-both P (err e, w) p = p

-- An invariant, read at the state after the action.
pub Keeps-state {ℓ} :
    {A : Type ℓ} {P : World → Type 0} (m : Exec A) → Keeps P m → (w : World) → P w → P (m w).1
Keeps-state {P} m k w p = Post-both P (m w) (k.at w p)

-- Invariants: the rules at `Keeps`, for `search`.
module _ {ℓ} {A : Type ℓ} {P : World → Type 0} where
  pub Keeps-pure : (a : A) → Keeps P (pure a)
  Keeps-pure a = Triple-pure a (λ w p. p)

  pub Keeps-raise : (e : JobError) → Keeps P (raise {A = A} e)
  Keeps-raise e = Triple-raise e (λ w p. p)

  pub Keeps-lift : (r : Result JobError A) → Keeps P (lift r)
  Keeps-lift r = Triple-lift r (λ a w e p. p) (λ x w e p. p)

  pub Keeps-if : (b : Bool) (m n : Exec A) → Keeps P m → Keeps P n → Keeps P (if b then m else n)
  Keeps-if b m n h k = Triple-if b m n (λ e. h) (λ e. k)

  pub Keeps-catch :
      (m : Exec A) (h : JobError → Exec A)
      → Keeps P m
      → ((e : JobError) → Keeps P (h e))
      → Keeps P (catch m h)
  Keeps-catch m h km kh = Triple-catch m h km kh

module _ {ℓ κ} {A : Type ℓ} {B : Type κ} {P : World → Type 0} where
  pub Keeps-bind :
      (m : Exec A) (f : A → Exec B) → Keeps P m → ((a : A) → Keeps P (f a)) → Keeps P (m >>= f)
  Keeps-bind m f km kf = Triple-bind m f km kf

module _ {P : World → Type 0} {R : JobError → World → Type 0} where
  pub Triple-get_scan : Triple P get_scan (λ scan. P) R
  unfolding get_scan
  Triple-get_scan = record { at = λ w p. p }

  pub Triple-now : Triple P now (λ t. P) R
  unfolding now
  Triple-now = record { at = λ w p. p }

pub Keeps-get_scan : {P : World → Type 0} → Keeps P get_scan
unfolding get_scan
Keeps-get_scan = record { at = λ w p. p }

pub Keeps-now : {P : World → Type 0} → Keeps P now
unfolding now
Keeps-now = record { at = λ w p. p }

pub ruleset keeps_rules = (
  Keeps-pure, Keeps-raise, Keeps-lift, Keeps-if, Keeps-catch, Keeps-bind, Keeps-get_scan, Keeps-now,
)
