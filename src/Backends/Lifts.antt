-- ===== src/Backends/Lifts.antt =====
-- What comes to an end in the build with files and sinks alone does so in every build that has both.
use paperlog.Base.{◌≡◌, refl, sym, ap, ◌∙◌, subst, arith, List, ℕ, Bool, Option, none, some}
use paperlog.Logcat
use paperlog.LogThread.{Crates}
use paperlog.Protocol
use paperlog.Protocol.{System, Event}
use paperlog.Protocol.Delivery.{Own, EndsBy, over, more, Ends}
use paperlog.Protocol.Entries.{PushesOnly}
use paperlog.Backends.{Build}
use paperlog.Backends.Calls.{Suits}
use paperlog.Backends.Runs.{World, perform}
use paperlog.Backends.Schedules.{systems, perform-systems, Suited, perform-Suited}
use paperlog.Backends.Simulation.{FilesAndSinks}

systems-some :
    (o : Option World) (u : System)
    → systems o ≡ some u
    → (v : World) × (o ≡ some v) × (v.system ≡ u)
unfolding systems
systems-some none u e = absurd (ground (arith, e))
systems-some (some v) u e = (v, refl, ground (arith, e))

systems-none : (o : Option World) → systems o ≡ none → o ≡ none
unfolding systems
systems-none none e = refl
systems-none (some v) e = absurd (ground (arith, e))

pub Own-PushesOnly : (build : Build) (e : Event) → Own e → PushesOnly (Suits build) e
Own-PushesOnly build e o = ground arith

module _ (crates : Crates) (loggable : Logcat.Priority → List ℕ → Bool) (build : Build)
    (P : System → Type 0) (plain : FilesAndSinks build) where
  -- The step of the build, for one of the system.
  below :
      (w : World)
      → Suited crates loggable build w.system
      → (e : Event)
      → systems (perform crates loggable build e w) ≡ Protocol.perform crates e w.system
  below w suited e = perform-systems crates loggable build e w plain suited.1.hand

  pub lifts :
      {s : System}
      → Ends crates P s
      → (w : World) → w.system ≡ s
      → Suited crates loggable build w.system
      → EndsBy (perform crates loggable build) (λ v. P v.system) w
  unfolding systems
  lifts (over stuck p) w same suited =
      over
        (λ e own.
          systems-none (perform crates loggable build e w)
            (below w suited e ∙ ap (Protocol.perform crates e) same ∙ stuck e own))
        (subst P (sym same) p)
  lifts (more e t own went k) w same suited =
      let (v, went', _) =
        systems-some (perform crates loggable build e w) t
          (below w suited e ∙ ap (Protocol.perform crates e) same ∙ went) in
      more e v own went' (λ f u o went_on.
        lifts
          (k f u.system o (
            ap (Protocol.perform crates f) (sym same)
            ∙ sym (below w suited f)
            ∙ ap systems went_on))
          u refl
          (perform-Suited crates loggable build f w u plain (Own-PushesOnly build f o) suited
            went_on))
