-- ===== src/Scans/Release.antt =====
-- A job gives its lease up: the steps. `IsLive` holds before each step. A step that raises the
-- lost lease or the cancellation leaves the scan unowned.
use web_security_audit_platf.Prelude.{
  ℕ, inl, inr, String, ◌≡◌, refl, true, false, some, List, [], ◌∷◌, arith, All, Bool-cases,
}
use web_security_audit_platf.Contracts.{cancelled}
use web_security_audit_platf.Scans.Scan.{Scan, Settings, is_queued_status, is_terminal_status}
use web_security_audit_platf.Scans.Lease.{
  JobError, scan_cancelled, scan_lease_lost, zap_client_spider_cancelled, owns,
  assert_scan_ownership,
}
use web_security_audit_platf.Scans.Events.{Event, apply_events_induction}
use web_security_audit_platf.Scans.Ownership.{
  IsLost, apply_event-IsLost, apply_event-claimed, apply_event-terminal,
}
use web_security_audit_platf.Scans.World.{World, ◌>>=◌, get_scan, now, refresh, write, others_act}
use web_security_audit_platf.Scans.Steps.{assert_owned, lock_scan_for_owned_write, owned_write}
use web_security_audit_platf.Scans.Triples.{Triple, Triple-bind}
use web_security_audit_platf.Scans.Kept.{Owned}

-- The scan has been claimed, and the monitor signals no lost lease.
pub record IsLive (w : World) : Type 0 where
  pub claimed : is_queued_status w.shared.row.status ≡ false
  pub quiet : All (λ b. b ≡ false) w.signals

module _ (settings : Settings) (worker : String) where
  -- The scan is cancelled, and lost.
  abbrev pub Ended : World → Type 0
  Ended w = (w.shared.row.status ≡ cancelled) × IsLost worker w.shared

  abbrev pub After : JobError → World → Type 0
  After scan_lease_lost w = IsLost worker w.shared
  After scan_cancelled w = Ended w
  After zap_client_spider_cancelled w = ⊥
  After _ w = Unit

  abbrev pub Raised : JobError → World → Type 0
  Raised e w = IsLive w × After e w

  -- An owned write raises nothing else.
  abbrev pub LeaseLost : JobError → World → Type 0
  LeaseLost e w = (e ≡ scan_lease_lost) × IsLive w × IsLost worker w.shared

  pub LeaseLost-Raised : (e : JobError) (w : World) → LeaseLost e w → Raised e w
  LeaseLost-Raised scan_lease_lost w h = (h.1, h.2)
  LeaseLost-Raised scan_cancelled w h = cc (h.0)
  LeaseLost-Raised zap_client_spider_cancelled w h = cc (h.0)
  LeaseLost-Raised _ w h = (h.1, tt)

  others_act-IsLive :
      (schedule : List (List Event)) (w : World)
      → IsLive w
      → IsLive (others_act settings schedule w)
  unfolding others_act
  others_act-IsLive [] w h = h
  others_act-IsLive (es ∷ rest) w h = record {
    claimed =
        apply_events_induction settings (λ s. is_queued_status s.row.status ≡ false)
          (apply_event-claimed settings) es w.shared h.claimed;
    quiet = h.quiet;
  }

  others_act-IsLost :
      (schedule : List (List Event)) (w : World)
      → IsLost worker w.shared
      → IsLost worker (others_act settings schedule w).shared
  unfolding others_act
  others_act-IsLost [] w h = h
  others_act-IsLost (es ∷ rest) w h =
      apply_events_induction settings (IsLost worker) (apply_event-IsLost settings worker) es
        w.shared h

  pub refresh-IsLive :
      {R : JobError → World → Type 0} → Triple IsLive (refresh settings) (λ u. IsLive) R
  unfolding refresh
  refresh-IsLive = record { at = λ w h. others_act-IsLive w.schedule w h }

  refresh-IsLost :
      {R : JobError → World → Type 0}
      → Triple
          (λ w. IsLive w × IsLost worker w.shared)
          (refresh settings)
          (λ u w. IsLive w × IsLost worker w.shared)
          R
  unfolding refresh
  refresh-IsLost = record {
    at = λ w h. (others_act-IsLive w.schedule w h.0, others_act-IsLost w.schedule w h.1);
  }

  others_act-Ended :
      (schedule : List (List Event)) (w : World)
      → Ended w
      → (others_act settings schedule w).shared.row.status ≡ cancelled
  unfolding others_act
  others_act-Ended [] w h = h.0
  others_act-Ended (es ∷ rest) w h =
      apply_events_induction settings (λ s. s.row.status ≡ cancelled)
        (λ e s c. rw (apply_event-terminal settings e s (rw c refl)) c) es w.shared h.0

  refresh-Ended :
      {R : JobError → World → Type 0}
      → Triple (λ w. IsLive w × Ended w) (refresh settings) (λ u w. IsLive w × Ended w) R
  unfolding refresh
  refresh-Ended = record {
    at = λ w h. (
      others_act-IsLive w.schedule w h.0,
      (others_act-Ended w.schedule w h.1, others_act-IsLost w.schedule w (h.1).1),
    );
  }

  pub assert_owned-Live :
      Triple IsLive
        (assert_owned settings (some worker))
        (λ u w. IsLive w × Owned worker w.shared)
        LeaseLost
  unfolding assert_owned assert_scan_ownership ◌>>=◌ get_scan now
  assert_owned-Live = record {
    at = λ w h. elim (Bool-cases (owns worker w.shared.clock w.shared.row)) [
      | inl mine ↦ rw mine (h, mine)
      | inr lost ↦ rw lost (refl, h, record { unowned = lost; claimed = h.claimed })
    ];
  }

  pub lock-Live :
      Triple IsLive
        (lock_scan_for_owned_write settings (some worker))
        (λ u w. IsLive w × Owned worker w.shared)
        LeaseLost
  unfolding lock_scan_for_owned_write
  lock-Live = Triple-bind _ _ refresh-IsLive (λ u. assert_owned-Live)

  -- A write after which the scan is still claimed.
  pub owned_write-Live :
      (f : ℕ → Scan → Scan)
      → ((t : ℕ) (row : Scan) → is_queued_status (f t row).status ≡ false)
      → Triple IsLive (owned_write settings (some worker) f) (λ u. IsLive) LeaseLost
  unfolding owned_write write
  owned_write-Live f keep = Triple-bind _ _ lock-Live λ u.
      Triple-bind _ _
        (record {
          at = λ w h. record { claimed = keep w.shared.clock w.shared.row; quiet = h.0.quiet };
        })
        λ u. refresh-IsLive

  -- A write that ends the lease.
  pub owned_write-Lost :
      (f : ℕ → Scan → Scan)
      → ((t : ℕ) (row : Scan) → is_terminal_status (f t row).status ≡ true)
      → Triple IsLive
          (owned_write settings (some worker) f)
          (λ u w. IsLive w × IsLost worker w.shared)
          LeaseLost
  unfolding owned_write write
  owned_write-Lost f ends = Triple-bind _ _ lock-Live λ u.
      Triple-bind _ _
        (record {
          at = λ w h.
              finished w.shared.clock (f w.shared.clock w.shared.row) w h.0.quiet
                (ends w.shared.clock w.shared.row);
        })
        λ u. refresh-IsLost
    where
      finished :
          (t : ℕ) (row : Scan) (w : World)
          → All (λ b. b ≡ false) w.signals
          → is_terminal_status row.status ≡ true
          → (IsLive (record w { shared = record w.shared { row = row } }))
            × (IsLost worker (record w.shared { row = row }))
      finished t row w q h = (
        record { claimed = ground arith; quiet = q },
        record { unowned = ground arith; claimed = ground arith },
      )

  -- The write of a cancellation.
  pub owned_write-Ended :
      (f : ℕ → Scan → Scan)
      → ((t : ℕ) (row : Scan) → (f t row).status ≡ cancelled)
      → Triple IsLive (owned_write settings (some worker) f) (λ u w. IsLive w × Ended w) LeaseLost
  unfolding owned_write write
  owned_write-Ended f ends = Triple-bind _ _ lock-Live λ u.
      Triple-bind _ _
        (record {
          at = λ w h.
              ended (f w.shared.clock w.shared.row) w h.0.quiet (ends w.shared.clock w.shared.row);
        })
        λ u. refresh-Ended
    where
      ended :
          (row : Scan) (w : World)
          → All (λ b. b ≡ false) w.signals
          → row.status ≡ cancelled
          → (IsLive (record w { shared = record w.shared { row = row } }))
            × Ended (record w { shared = record w.shared { row = row } })
      ended row w q h = (
        record { claimed = ground arith; quiet = q },
        (h, record { unowned = ground arith; claimed = ground arith }),
      )
