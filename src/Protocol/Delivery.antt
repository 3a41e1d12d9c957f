-- ===== src/Protocol/Delivery.antt =====
-- The events that are left when no client makes a new call: where they lead, and that they end.
use paperlog.Base.{◌≡◌, Option, none, some}
use paperlog.LogThread.{Crates}
use paperlog.Protocol.{System, Event, signals, advance, request, perform}

-- An event without a new call of a client: the end of a call that queued, or a step of the thread.
abbrev pub Own : Event → Type 0
Own signals = Unit
Own advance = Unit
Own request = Unit
Own _ = ⊥

-- Whatever such events happen, in whatever order: there are finitely many, as long as there are some
-- left one can happen, and where none can happen any more `P` holds.
pub data EndsBy {S : Type 0} (step : Event → S → Option S) (P : S → Type 0) : S → Type 0 where
  over : {s : S} → ((e : Event) → Own e → step e s ≡ none) → P s → EndsBy step P s
  more :
      {s : S} (e : Event) (t : S)
      → Own e
      → step e s ≡ some t
      → ((f : Event) (u : S) → Own f → step f s ≡ some u → EndsBy step P u)
      → EndsBy step P s

-- What is kept on the way holds at the end.
pub EndsBy-keeps :
    {S : Type 0} (step : Event → S → Option S) (P Q I : S → Type 0)
    → ((e : Event) (s t : S) → Own e → step e s ≡ some t → I s → I t)
    → ((s : S) → P s → I s → Q s)
    → (s : S) → I s
    → EndsBy step P s
    → EndsBy step Q s
EndsBy-keeps step P Q I keep last s i (over stuck p) = over stuck (last s p i)
EndsBy-keeps step P Q I keep last s i (more e t own went k) =
    more e t own went
      (λ f u o w. EndsBy-keeps step P Q I keep last u (keep f s u o w i) (k f u o w))

-- So it is for the logging thread and its clients.
abbrev pub Ends : Crates → (System → Type 0) → System → Type 0
Ends crates P = EndsBy (perform crates) P

pub Ends-mono :
    (crates : Crates) (P Q : System → Type 0)
    → ((s : System) → P s → Q s)
    → (s : System) → Ends crates P s
    → Ends crates Q s
Ends-mono crates P Q f s =
    EndsBy-keeps (perform crates) P Q (λ _. Unit) (λ e s t o w i. tt) (λ s p i. f s p) s tt
