-- ===== src/Scans/World.antt =====
-- A job as an action on the world: it shares the scan's row with the processes of Events.antt,
-- which act where the job refreshes the row (`db.refresh`) and so at the start of each transaction.
-- What was written before a raise stays written.
use web_security_audit_platf.Prelude.{ℕ, Bool, List, [], ◌∷◌, Result, ok, err}
use web_security_audit_platf.Findings.{NormalizedFindingInput, ToolReceipt}
use web_security_audit_platf.Scans.Scan.{Scan, Settings}
use web_security_audit_platf.Scans.Lease.{JobError}
use web_security_audit_platf.Scans.Events.{Event, Shared, apply_events}

pub record World : Type 0 where
  pub shared : Shared
  -- what the other processes will do at each refresh, and whether the monitor of the worker has
  -- signalled a lost lease at each checkpoint
  pub schedule : List (List Event)
  pub signals : List Bool
  pub zap_locked : Bool
  pub tool_runs : List ToolReceipt
  pub findings : List NormalizedFindingInput
  pub risk_scored : Bool

abbrev pub Exec {ℓ} : Type ℓ → Type ℓ
Exec A = World → Result JobError A × World

module _ {ℓ} {A : Type ℓ} where
  unfoldable pub pure : A → Exec A
  pure a w = (ok a, w)

  unfoldable pub raise : JobError → Exec A
  raise e w = (err e, w)

  unfoldable pub lift : Result JobError A → Exec A
  lift r w = (r, w)

  abbrev pub handle : (JobError → Exec A) → Result JobError A × World → Result JobError A × World
  handle h (ok a, w) = (ok a, w)
  handle h (err e, w) = h e w

  -- try: m except e: h e
  unfoldable pub catch : Exec A → (JobError → Exec A) → Exec A
  catch m h w = handle h (m w)

module _ {ℓ κ} {A : Type ℓ} {B : Type κ} where
  abbrev pub continue : Result JobError A → (A → Exec B) → World → Result JobError B × World
  continue (ok a) f w = f a w
  continue (err e) f w = (err e, w)

  infixl 5 ◌>>=◌
  unfoldable pub ◌>>=◌ : Exec A → (A → Exec B) → Exec B
  unfolding pure raise lift
  ◌>>=◌ m f w = let (r, w') = m w in continue r f w'

  infixl 5 ◌>>◌
  abbrev pub ◌>>◌ : Exec A → Exec B → Exec B
  m >> n = m >>= λ _. n

-- The scan object, as it was last refreshed.
unfoldable pub get_scan : Exec Scan
get_scan w = (ok w.shared.row, w)

-- datetime.now(UTC)
unfoldable pub now : Exec ℕ
now w = (ok w.shared.clock, w)

unfoldable pub others_act : Settings → List (List Event) → World → World
others_act settings [] w = w
others_act settings (es ∷ rest) w = record w {
  shared = apply_events settings es w.shared;
  schedule = rest;
}

-- db.refresh(scan): the others act first.
unfoldable pub refresh : Settings → Exec (Unit {0})
unfolding others_act
refresh settings w = (ok tt, others_act settings w.schedule w)

-- Sets columns of the locked row from the time and the row.
unfoldable pub write : (ℕ → Scan → Scan) → Exec (Unit {0})
write f w = (ok tt, record w { shared = record w.shared { row = f w.shared.clock w.shared.row } })
