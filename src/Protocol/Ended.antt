-- ===== src/Protocol/Ended.antt =====
-- The logger after the end of its thread.
use paperlog.Base.{◌≡◌, refl, sym, ap, subst, ◌∙◌, List, [], ◌++◌, some, append-nil, append_assoc}
use paperlog.LogData.{LogData}
use paperlog.LogThread.{Crates}
use paperlog.LogThread.Over.{HasEnded, thread_step-none}
use paperlog.Protocol.{System, Event, run}
use paperlog.Protocol.Moves.{
  Move, queues, signalled, stepped, requests, waits, wakes, gives_up, administers,
}
use paperlog.Protocol.Schedules.{run-keeps, All-any}

-- What was left behind: nothing more was taken or written, and what was queued stays in the queue.
pub record Left (s t : System) : Type 0 where
  pub thread : t.thread ≡ s.thread
  pub took : t.took ≡ s.took
  pub file : t.ctx.global_file ≡ s.ctx.global_file
  pub more : List LogData
  pub queued : t.queued ≡ s.queued ++ more
  pub queue : t.ctx.log_queue ≡ s.ctx.log_queue ++ more

module _ (crates : Crates) where
  Move-Left :
      {e : Event} {s t u : System} → HasEnded s.thread.pc → Move crates e t u → Left s t → Left s u
  Move-Left {s} {t} a (queues logs b free eq) l = rw eq (record {
    thread = l.thread;
    took = l.took;
    file = l.file;
    more = l.more ++ logs;
    queued = ap (λ q. q ++ logs) l.queued ∙ append_assoc s.queued l.more logs;
    queue = ap (λ q. q ++ logs) l.queue ∙ append_assoc s.ctx.log_queue l.more logs;
  })
  Move-Left a (signalled k p eq) l = rw eq (record {
    thread = l.thread;
    took = l.took;
    file = l.file;
    more = l.more;
    queued = l.queued;
    queue = l.queue;
  })
  Move-Left {t = t} a (stepped ctx thread moved free eq) l =
      let stuck =
        thread_step-none crates t.ctx t.thread (subst (λ th. HasEnded th.pc) (sym l.thread) a) in
      cc
  Move-Left a (requests w p eq) l = rw eq (record {
    thread = l.thread;
    took = l.took;
    file = l.file;
    more = l.more;
    queued = l.queued;
    queue = l.queue;
  })
  Move-Left a (waits w d b p eq) l = rw eq (record {
    thread = l.thread;
    took = l.took;
    file = l.file;
    more = l.more;
    queued = l.queued;
    queue = l.queue;
  })
  Move-Left a (wakes w d b p eq) l = rw eq (record {
    thread = l.thread;
    took = l.took;
    file = l.file;
    more = l.more;
    queued = l.queued;
    queue = l.queue;
  })
  Move-Left a (gives_up d p eq) l = rw eq (record {
    thread = l.thread;
    took = l.took;
    file = l.file;
    more = l.more;
    queued = l.queued;
    queue = l.queue;
  })
  Move-Left a (administers ctx free quiet out keeps spares eq) l = rw eq (record {
    thread = l.thread;
    took = l.took;
    file = out.file ∙ l.file;
    more = l.more;
    queued = l.queued;
    queue = out.queue ∙ l.queue;
  })

  -- Once the logging thread has stopped with an error or panicked, whatever the clients do, no entry is
  -- taken and nothing is written to the global file or flushed any more: the entries queued before and
  -- after stay in the queue, in order.
  pub run-Left :
      (es : List Event) (s t : System) → HasEnded s.thread.pc → run crates es s ≡ some t → Left s t
  run-Left es s t ended ran =
      run-keeps crates (Left s) (λ _. Unit {0}) (λ e u v a m l. Move-Left ended m l) es s t
        (All-any es)
        (record {
          thread = refl;
          took = refl;
          file = refl;
          more = [];
          queued = sym (append-nil s.queued);
          queue = sym (append-nil s.ctx.log_queue);
        })
        ran
