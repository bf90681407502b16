-- ===== src/Actor/System/Shutdown.antt =====
-- `StoreTask::shutdown` of src/store.rs: the thread ends, whatever the clients still do.
use aperip_nomos.Prelude.{
  ℕ, suc, ◌+◌, ◌≤◌, ◌≡◌, ◌≢◌, refl, ap, inl, inr, true, false, any, arith, Option-cases,
}
use aperip_nomos.Prelude.Result.{Result-cases, err}
use aperip_nomos.Database.{Crates}
use aperip_nomos.Store.State.{StoreCommand, shutdown, StoreCore}
use aperip_nomos.Actor.{full, closed}
use aperip_nomos.Actor.Channel.{Mpsc, MpscLaws}
use aperip_nomos.Actor.System.{
  System, Thread, running, leaving, core_dropped, unwound, ended, is_ended, ThreadStep,
  take_command, drop_state, drop_flags, close_queue, OtherStep, read_flags, try, call_again,
  get_answer, lose_answer, begin_shutdown, send_shutdown, join, Reach, start, thread_step,
  other_step,
}
use aperip_nomos.Actor.System.Order.{Reach-IsOrdered}
use aperip_nomos.Actor.System.Countdown.{
  is_shutdown, any-append_shutdown, is_asked, left, Pending, ThreadStep-left, OtherStep-left,
}

module _ (m : Mpsc StoreCommand) (q : MpscLaws m) (x : Crates) where
  open x use {db}

  -- a command that is sent to an open channel with room stands in its queue
  asked-any :
      (thread : Thread) (queue : m.Queue)
      → q.is_closed queue ≡ is_ended thread
      → (m.try_send shutdown queue).0 ≢ err full
      → thread ≡ running
      → any is_shutdown (q.contents (m.try_send shutdown queue).1) ≡ true
  asked-any thread queue open_ room r = elim (Result-cases (m.try_send shutdown queue).0) [
    | inl (v, e) ↦ rw ((q.try_send_ok shutdown queue e).0) (any-append_shutdown (q.contents queue))
    | inr (full, e) ↦ absurd (room e)
    | inr (closed, e) ↦ let shut = q.closed_lem shutdown queue e in let going = ap is_ended r in cc
  ]

  OtherStep-asked :
      {P : StoreCommand → Type 0} {s t : System x m}
      → OtherStep x m P s t
      → is_asked s.task ≡ true
      → is_asked t.task ≡ true
  OtherStep-asked (read_flags i c h) a = a
  OtherStep-asked (try i c seen u other h) a = a
  OtherStep-asked (call_again i h) a = a
  OtherStep-asked (get_answer i n c done b h e g) a = a
  OtherStep-asked (lose_answer i n c h e g) a = a
  OtherStep-asked (begin_shutdown h) a = let k = ap is_asked h in cc
  OtherStep-asked (send_shutdown h room) a = refl
  OtherStep-asked (join h e) a = refl

  ThreadStep-asked :
      {s t : System x m} → ThreadStep x m s t → is_asked s.task ≡ true → is_asked t.task ≡ true
  ThreadStep-asked (take_command c h e) a = a
  ThreadStep-asked (drop_state h) a = a
  ThreadStep-asked (drop_flags h) a = a
  ThreadStep-asked (close_queue h) a = a

  abbrev AskedPending : System x m → Type 0
  AskedPending s = is_asked s.task ≡ true → Pending m q x s

  ThreadStep-AskedPending :
      {s t : System x m} → ThreadStep x m s t → AskedPending s → AskedPending t
  ThreadStep-AskedPending {s} (take_command c h e) p =
      λ a. (ThreadStep-left m q x {s = s} (take_command c h e) (p a)).1
  ThreadStep-AskedPending (drop_state h) p = λ a k. cc
  ThreadStep-AskedPending (drop_flags h) p = λ a k. cc
  ThreadStep-AskedPending (close_queue h) p = λ a k. cc

  OtherStep-AskedPending :
      {P : StoreCommand → Type 0} {s t : System x m}
      → OtherStep x m P s t
      → q.is_closed s.queue ≡ is_ended s.thread
      → AskedPending s
      → AskedPending t
  OtherStep-AskedPending (read_flags i c h) o p = p
  OtherStep-AskedPending {P} {s} (try i c seen u other h) o p =
      λ a. (OtherStep-left m q x {P = P} {s = s} (try i c seen u other h) a (p a)).1
  OtherStep-AskedPending (call_again i h) o p = p
  OtherStep-AskedPending (get_answer i n c done b h e g) o p = p
  OtherStep-AskedPending (lose_answer i n c h e g) o p = p
  OtherStep-AskedPending (begin_shutdown h) o p = λ a. cc
  OtherStep-AskedPending {s = s} (send_shutdown h room) o p = λ a. asked-any s.thread s.queue o room
  OtherStep-AskedPending {s = s} (join h e) o p = λ a. p (ap is_asked h)

  Reach-AskedPending :
      (P : StoreCommand → Type 0)
      → P shutdown
      → (core : StoreCore db) → {s : System x m} → Reach x m P core s
      → AskedPending s
  Reach-AskedPending P p core start = λ a. cc
  Reach-AskedPending P p core (thread_step reached step) =
      ThreadStep-AskedPending step (Reach-AskedPending P p core reached)
  Reach-AskedPending P p core (other_step reached step) =
      let order = Reach-IsOrdered m q P core.config.queue_capacity x p core refl reached in
      OtherStep-AskedPending step order.closed (Reach-AskedPending P p core reached)

  -- a run of `n` steps of the thread, and of any steps of the others between them
  pub data Run (P : StoreCommand → Type 0) (s : System x m) : ℕ → System x m → Type 0 where
    here : Run P s 0 s
    own : {n : ℕ} {t u : System x m} → Run P s n t → ThreadStep x m t u → Run P s (suc n) u
    others : {n : ℕ} {t u : System x m} → Run P s n t → OtherStep x m P t u → Run P s n u

  Run-left :
      {P : StoreCommand → Type 0} {s : System x m} {n : ℕ} {t : System x m}
      → Run P s n t
      → is_asked s.task ≡ true
      → Pending m q x s
      → (n + left m q x t ≤ left m q x s) × (is_asked t.task ≡ true) × Pending m q x t
  Run-left here a p = (omega arith, a, p)
  Run-left (own r step) a p =
      let k = Run-left r a p in
      let l = ThreadStep-left m q x step (k.2) in (omega arith, ThreadStep-asked step (k.1), l.1)
  Run-left (others r step) a p =
      let k = Run-left r a p in
      let l = OtherStep-left m q x step (k.1) (k.2) in
      (omega arith, OtherStep-asked step (k.1), l.1)

  next_step :
      (s : System x m) (thread : Thread)
      → s.thread ≡ thread
      → Pending m q x s
      → is_ended thread ≡ false
      → (t : System x m) × ThreadStep x m s t
  next_step s running h p going = elim (Option-cases (m.recv s.queue).0) [
    | inl nothing ↦ let k = rw (q.recv_none s.queue nothing) at (p h) in cc
    | inr (c, e) ↦ (_, take_command c h e)
  ]
  next_step s leaving h p going = (_, drop_state h)
  next_step s core_dropped h p going = (_, drop_flags h)
  next_step s unwound h p going = (_, close_queue h)
  next_step s ended h p going = cc

  -- Once the task has sent its shutdown, the thread takes at most the steps for the commands up to the
  -- first shutdown in the queue and three more, whatever clients do between them, and until it has
  -- ended it always has a step to take. So every schedule that lets it run ends it.
  pub shutdown-ends :
      (P : StoreCommand → Type 0) (core : StoreCore db) (s t : System x m) (n : ℕ)
      → P shutdown
      → Reach x m P core s
      → is_asked s.task ≡ true
      → Run P s n t
      → (n + left m q x t ≤ left m q x s)
        × (is_ended t.thread ≡ false → (u : System x m) × ThreadStep x m t u)
  shutdown-ends P core s t n p reached a r =
      let k = Run-left r a (Reach-AskedPending P p core reached a) in
      (k.0, next_step t t.thread refl (k.2))
