-- ===== src/Protocol/Entries.antt =====
-- What holds of every entry that the clients queue, as long as its pieces have it too, along a schedule.
use paperlog.Base.{sym, subst, List, All, All-append, All-back, OnSome-some, Text}
use paperlog.LogData.{LogData}
use paperlog.Chunks.{with_message}
use paperlog.LogThread.{Crates, thread_step, takes}
use paperlog.LogThread.Entries.{InHand, HandOut, thread_step-InHand}
use paperlog.LogThread.Order.{Keeps, thread_step-Keeps}
use paperlog.Protocol.{System, Event, push}
use paperlog.Protocol.Clients.{Queues}
use paperlog.Protocol.Moves.{
  Move, queues, signalled, stepped, requests, waits, wakes, gives_up, administers,
}
use paperlog.Protocol.Order.{InOrder}

module _ {κ} (P : LogData → Type κ) where
  -- An event that queues only such entries.
  abbrev pub PushesOnly : Event → Type κ
  PushesOnly (push logs) = All P logs
  PushesOnly _ = Unit

  pub Queues-All : (e : Event) (logs : List LogData) → PushesOnly e → Queues e logs → All P logs
  Queues-All (push logs) queued a q = subst (All P) q a
  Queues-All _ queued a q = absurd q

  -- All entries in the queue and in the thread's hands have the property.
  pub record Holds (s : System) : Type κ where
    pub queue : All P s.ctx.log_queue
    pub hand : InHand P s.thread.pc

  module _ (crates : Crates)
      (cut : (log : LogData) (piece : Text) → P log → P (with_message log piece)) where
    pub Move-Holds :
        {e : Event} {s t : System}
        → PushesOnly e
        → Move crates e s t
        → InOrder s
        → Holds s
        → Holds t
    Move-Holds {e} {s} a (queues logs b free eq) o h = rw eq (record {
      queue = All-append P s.ctx.log_queue logs h.queue (Queues-All e logs a b);
      hand = h.hand;
    })
    Move-Holds a (signalled k p eq) o h = rw eq (record { queue = h.queue; hand = h.hand })
    Move-Holds {s = s} a (stepped ctx thread moved free eq) o h =
        let k =
          OnSome-some (Keeps crates s.ctx s.thread.pc) (thread_step crates s.ctx s.thread)
            (thread_step-Keeps crates s.ctx s.thread o.clean) moved in
        rw eq (record {
          queue =
              All-back P (takes s.thread.pc s.ctx) ctx.log_queue
                (subst (All P) (sym k.queue) h.queue);
          hand =
              OnSome-some (HandOut P crates cut) (thread_step crates s.ctx s.thread)
                (thread_step-InHand P crates cut s.ctx s.thread h.queue h.hand) moved;
        })
    Move-Holds a (requests w p eq) o h = rw eq (record { queue = h.queue; hand = h.hand })
    Move-Holds a (waits w d b p eq) o h = rw eq (record { queue = h.queue; hand = h.hand })
    Move-Holds a (wakes w d b p eq) o h = rw eq (record { queue = h.queue; hand = h.hand })
    Move-Holds a (gives_up d p eq) o h = rw eq (record { queue = h.queue; hand = h.hand })
    Move-Holds a (administers ctx free quiet out keeps spares eq) o h =
        rw eq (record { queue = subst (All P) (sym out.queue) h.queue; hand = h.hand })
