-- ===== src/Protocol/Schedules.antt =====
-- Invariants of schedules.
use paperlog.Base.{
  ◌++◌, refl, sym, ◌∙◌, arith, ◌≡◌, List, [], ◌∷◌, some, Option-cases, inl, inr, All, OnSome,
  OnSome-some,
}
use paperlog.LogThread.{Crates}
use paperlog.Protocol.{System, Event, perform, run}
use paperlog.Protocol.Moves.{Move, perform-Move}

module _ {ℓ κ} (crates : Crates) (P : System → Type ℓ) (Allowed : Event → Type κ)
    (keep : (e : Event) (s t : System) → Allowed e → Move crates e s t → P s → P t) where
  run-OnSome : (es : List Event) (s : System) → All Allowed es → P s → OnSome P (run crates es s)
  unfolding run
  run-OnSome [] s a p = p
  run-OnSome (e ∷ es) s a p = elim (Option-cases (perform crates e s)) [
    | inl stuck ↦ rw (stuck, run) tt
    | inr (t, moved) ↦
        let m =
          OnSome-some (Move crates e s) (perform crates e s) (perform-Move crates e s) moved in
        rw (moved, run) (run-OnSome es t a.1 (keep e s t a.0 m p))
  ]

  -- What every allowed step keeps holds after every schedule of allowed events.
  pub run-keeps :
      (es : List Event) (s t : System) → All Allowed es → P s → run crates es s ≡ some t → P t
  run-keeps es s t a p ran = OnSome-some P (run crates es s) (run-OnSome es s a p) ran

pub All-any : (es : List Event) → All (λ _. Unit {0}) es
All-any [] = tt
All-any (e ∷ es) = (tt, All-any es)

pub run-cons :
    (crates : Crates) (e : Event) (es : List Event) (s t : System)
    → perform crates e s ≡ some t
    → run crates (e ∷ es) s ≡ run crates es t
unfolding run
run-cons crates e es s t moved = rw (moved, run) refl

-- One schedule after the other.
pub run-append :
    (crates : Crates) (es fs : List Event) (s u : System)
    → run crates es s ≡ some u
    → run crates (es ++ fs) s ≡ run crates fs u
unfolding run
run-append crates [] fs s u ran = ground (arith, ran)
run-append crates (e ∷ es) fs s u ran = elim (Option-cases (perform crates e s)) [
  | inl stuck ↦ absurd (ground (arith, stuck, ran))
  | inr (t, moved) ↦
      rw (moved, run) (run-append crates es fs t u (sym (run-cons crates e es s t moved) ∙ ran))
]
