-- ===== src/Live/Resume/Steps.antt =====
-- The runs of web/src/resumeRecovery.ts: signals while it is installed, the end of a refresh that is
-- in flight, the disposal, in any order.
use mc_carto_live.Prelude.{ℕ, Bool, true, false, ◌≡◌}
use mc_carto_live.Live.Resume.{
  ResumeRecovery, Page, Signal, install_resume_recovery, handle, settle, dispose,
}

module _ (force_dedupe_ms : ℕ) where
  pub data Step : ResumeRecovery → ResumeRecovery → Type 0 where
    signal :
        (r : ResumeRecovery) (page : Page) (event : Signal)
        → r.disposed ≡ false
        → Step r (handle force_dedupe_ms event page r)
    land : (r : ResumeRecovery) (page : Page) → r.in_flight ≡ true → Step r (settle page r)
    close : (r : ResumeRecovery) → Step r (dispose r)

  pub data Reachable : ResumeRecovery → Type 0 where
    installed : (hidden : Bool) → Reachable (install_resume_recovery hidden)
    stepped : (r r' : ResumeRecovery) → Reachable r → Step r r' → Reachable r'
