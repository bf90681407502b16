-- ===== src/Actor/System/Order.antt =====
-- The channel of src/store.rs while its clients and its thread run: nothing that is accepted is lost or
-- moved, and the queue keeps its bound.
use aperip_nomos.Prelude.{
  ℕ, ◌≤◌, ◌≡◌, refl, sym, ap, ◌∙◌, inl, inr, Bool, true, false, List, [], ◌∷◌, ◌++◌, some, length,
  length-append, map, arith, Bool-cases, if◌then◌else◌,
}
use aperip_nomos.Prelude.Result.{Result, Result-cases, ok, err, map_err}
use aperip_nomos.Database.{Crates}
use aperip_nomos.Store.State.{StoreCommand, shutdown, SharedState, StoreCore, StoreError}
use aperip_nomos.Actor.{send, send_error, TrySendError, closed}
use aperip_nomos.Actor.Channel.{Mpsc, MpscLaws}
use aperip_nomos.Actor.System.{
  System, Thread, running, leaving, ended, Done, is_ended, note, ThreadStep, take_command,
  drop_state, drop_flags, close_queue, OtherStep, read_flags, try, call_again, get_answer,
  lose_answer, begin_shutdown, send_shutdown, join, Reach, start, thread_step, other_step,
}
use aperip_nomos.Actor.System.Entries.{add_all, add_all-snoc}

abbrev pub Every {ℓ κ} : {A : Type ℓ} → (A → Type κ) → List A → Type κ
Every P [] = Unit
Every P (a ∷ l) = P a × Every P l

Every-snoc {ℓ κ} :
    {A : Type ℓ} (P : A → Type κ) (l : List A) (a : A) → Every P l → P a → Every P (l ++ (a ∷ []))
Every-snoc P [] a h p = (p, tt)
Every-snoc P (b ∷ l) a h p = (h.0, Every-snoc P l a h.1 p)

abbrev commands : List Done → List StoreCommand
commands log = map (λ d. d.command) log

note-map_err :
    (f : TrySendError → StoreError) (r : Result TrySendError (Unit {0})) (command : StoreCommand)
    (sent : List StoreCommand)
    → note (map_err f r) command sent ≡ note r command sent
note-map_err f (ok v) command sent = refl
note-map_err f (err e) command sent = refl

-- a thread that has taken a command has not ended
is_ended-goes : (stop : Bool) → is_ended (if stop then leaving else running) ≡ false
is_ended-goes true = refl
is_ended-goes false = refl

module _ (m : Mpsc StoreCommand) (q : MpscLaws m) (P : StoreCommand → Type 0) (n : ℕ) where
  -- What was sent is what the thread took and, until the receiver is dropped, what stands in the
  -- queue, in this order.
  pub record Ordered (thread : Thread) (queue : m.Queue) (sent : List StoreCommand)
      (log : List Done) : Type 0 where
    pub rest : List StoreCommand
    pub fifo : sent ≡ add_all rest (commands log)
    pub queued : is_ended thread ≡ false → rest ≡ q.contents queue
    pub every : Every P (q.contents queue)
    pub capacity : q.capacity queue ≡ n
    pub bound : length (q.contents queue) ≤ n
    pub closed : q.is_closed queue ≡ is_ended thread

  -- a channel that accepts a command is not closed
  open_ :
      (r : Result TrySendError (Unit {0}))
      → r ≡ ok tt
      → (thread : Thread) (queue : m.Queue) → q.is_closed queue ≡ is_ended thread
      → (q.is_closed queue ≡ true → r ≡ err closed)
      → is_ended thread ≡ false
  open_ r e thread queue same shut = elim (Bool-cases (is_ended thread)) [
    | inl over ↦ let k = shut (same ∙ over) in cc
    | inr going ↦ going
  ]

  sent-Ordered :
      (thread : Thread) (queue : m.Queue) (sent : List StoreCommand) (log : List Done)
      (command : StoreCommand)
      → P command
      → Ordered thread queue sent log
      → Ordered thread
          (m.try_send command queue).1
          (note (m.try_send command queue).0 command sent)
          log
  sent-Ordered thread queue sent log command p h =
      elim (Result-cases (m.try_send command queue).0) [
        | inl (done, e) ↦
            let k = q.try_send_ok command queue e in
            let going =
              open_ (m.try_send command queue).0 e thread queue h.closed
                (q.try_send_closed command queue) in
            record {
              rest = h.rest ++ (command ∷ []);
              fifo = rw (e, h.fifo) (sym (add_all-snoc h.rest command (commands log)));
              queued = λ _. cc (h.queued going, k.0);
              every = rw (k.0) (Every-snoc P (q.contents queue) command h.every p);
              capacity = k.2 ∙ h.capacity;
              bound =
                  rw (k.0) (
                    omega
                      (arith, length-append (q.contents queue) (command ∷ []), k.3, h.capacity));
              closed = k.1 ∙ h.closed;
            }
        | inr (f, e) ↦ rw (e, q.try_send_err command queue f e) h
      ]

  took-Ordered :
      (thread thread' : Thread) (queue : m.Queue) (sent : List StoreCommand) (log : List Done)
      (done : Done)
      → (m.recv queue).0 ≡ some done.command
      → is_ended thread ≡ false
      → is_ended thread' ≡ false
      → Ordered thread queue sent log
      → Ordered thread' (m.recv queue).1 sent (done ∷ log)
  took-Ordered thread thread' queue sent log done e going going' h =
      let k = q.recv_some done.command queue e in
      let every = rw (k.0) at h.every in
      record {
        rest = q.contents (m.recv queue).1;
        fifo = let r = h.queued going ∙ k.0 in rw (h.fifo, r) refl;
        queued = λ _. refl;
        every = every.1;
        capacity = k.2 ∙ h.capacity;
        bound = let b = rw (k.0) at h.bound in omega arith;
        closed = k.1 ∙ h.closed ∙ going ∙ sym going';
      }

  tried-Ordered :
      (thread : Thread) (queue : m.Queue) (sent : List StoreCommand) (log : List Done)
      (command : StoreCommand) (seen : SharedState)
      → P command
      → Ordered thread queue sent log
      → Ordered thread
          (send m.try_send seen command queue).1
          (note (send m.try_send seen command queue).0 command sent)
          log
  unfolding send
  tried-Ordered thread queue sent log command seen p h = elim (Bool-cases seen.alive) [
    | inl alive ↦ rw alive (
        rw (note-map_err send_error (m.try_send command queue).0 command sent)
          (sent-Ordered thread queue sent log command p h))
    | inr dead ↦ rw dead h
  ]

  -- the thread goes on without the channel
  kept-Ordered :
      (thread thread' : Thread) (queue : m.Queue) (sent : List StoreCommand) (log : List Done)
      → is_ended thread ≡ is_ended thread'
      → Ordered thread queue sent log
      → Ordered thread' queue sent log
  kept-Ordered thread thread' queue sent log same h = record {
    rest = h.rest;
    fifo = h.fifo;
    queued = λ going. h.queued (same ∙ going);
    every = h.every;
    capacity = h.capacity;
    bound = h.bound;
    closed = h.closed ∙ same;
  }

  closed-Ordered :
      (thread : Thread) (queue : m.Queue) (sent : List StoreCommand) (log : List Done)
      → Ordered thread queue sent log
      → Ordered ended (m.drop_receiver queue) sent log
  closed-Ordered thread queue sent log h =
      let k = q.drop_receiver_lem queue in
      record {
        rest = h.rest;
        fifo = h.fifo;
        queued = λ going. cc;
        every = rw (k.0) tt;
        capacity = k.2 ∙ h.capacity;
        bound = rw (k.0) (omega arith);
        closed = k.1;
      }

  module _ (x : Crates) where
    -- the channel of a system
    abbrev pub IsOrdered : System x m → Type 0
    IsOrdered s = Ordered s.thread s.queue s.sent s.log

    pub ThreadStep-IsOrdered : {s t : System x m} → ThreadStep x m s t → IsOrdered s → IsOrdered t
    ThreadStep-IsOrdered {s} (take_command command h e) k =
        took-Ordered s.thread _ s.queue s.sent s.log _ e (ap is_ended h) (is_ended-goes _) k
    ThreadStep-IsOrdered {s} (drop_state h) k =
        kept-Ordered _ _ s.queue s.sent s.log (ap is_ended h) k
    ThreadStep-IsOrdered {s} (drop_flags h) k =
        kept-Ordered _ _ s.queue s.sent s.log (ap is_ended h) k
    ThreadStep-IsOrdered {s} (close_queue h) k = closed-Ordered s.thread s.queue s.sent s.log k

    pub OtherStep-IsOrdered :
        P shutdown → {s t : System x m} → OtherStep x m P s t → IsOrdered s → IsOrdered t
    OtherStep-IsOrdered p (read_flags i command free) k = k
    OtherStep-IsOrdered p {s} (try i command seen c other at_) k =
        tried-Ordered s.thread s.queue s.sent s.log command seen c k
    OtherStep-IsOrdered p (call_again i h) k = k
    OtherStep-IsOrdered p (get_answer i n command done answer h e f) k = k
    OtherStep-IsOrdered p (lose_answer i n command h e f) k = k
    OtherStep-IsOrdered p (begin_shutdown h) k = k
    OtherStep-IsOrdered p {s} (send_shutdown h room) k =
        sent-Ordered s.thread s.queue s.sent s.log shutdown p k
    OtherStep-IsOrdered p (join h e) k = k

    -- In every state that clients, thread and task can reach, what was sent is what the thread took
    -- followed, until the receiver is dropped, by what stands in the queue; the queue is within its
    -- capacity, and it is closed exactly when the thread has ended.
    pub Reach-IsOrdered :
        P shutdown
        → (core : StoreCore x.db) → core.config.queue_capacity ≡ n
        → {s : System x m} → Reach x m P core s
        → IsOrdered s
    Reach-IsOrdered p core e start =
        let k = q.channel_lem core.config.queue_capacity in
        record {
          rest = [];
          fifo = refl;
          queued = λ _. sym (k.0);
          every = rw (k.0) tt;
          capacity = k.2 ∙ e;
          bound = rw (k.0) (omega arith);
          closed = k.1;
        }
    Reach-IsOrdered p core e (thread_step r step) =
        ThreadStep-IsOrdered step (Reach-IsOrdered p core e r)
    Reach-IsOrdered p core e (other_step r step) =
        OtherStep-IsOrdered p step (Reach-IsOrdered p core e r)
