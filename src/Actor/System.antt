-- ===== src/Actor/System.antt =====
-- The whole of src/store.rs while it runs: clients on any number of handles, the thread of the actor
-- and the task that shuts it down, interleaved in any order over one channel and one set of flags. The
-- task keeps a sender until it has joined the thread, so the channel does not hang up before. The owner
-- lock, which goes with the core, is not part of this state.
pub mod Entries
pub mod Order
pub mod History
pub mod Numbers
pub mod Answers
pub mod Countdown
pub mod Shutdown
pub mod Returns
use aperip_nomos.Prelude.{
  ℕ, ◌≡◌, ◌≢◌, ◌⊎◌, Bool, true, false, List, [], ◌∷◌, Option, none, some, length, ◌==◌, ◌||◌, not,
  if◌then◌else◌,
}
use aperip_nomos.Prelude.Family.{update}
use aperip_nomos.Prelude.Result.{Result, ok, err}
use aperip_nomos.Database.{Crates}
use aperip_nomos.Store.State.{
  StoreCommand, shutdown, StoreError, unavailable, SharedState, StoreCore,
}
use aperip_nomos.Store.Core.{close_state}
use aperip_nomos.Actor.{Answer, TrySendError, full, send, drop_guard, Executed, execute}
use aperip_nomos.Actor.Channel.{Mpsc}
use aperip_nomos.Actor.System.Entries.{entry}

-- A call of a client: it has read the flags; it waits on the `oneshot` channel of the n-th command that
-- was sent; it has returned the answer to that command; it has returned an error.
pub data Call : Type 0 where
  idle : Call
  checked : StoreCommand → SharedState → Call
  waiting : StoreCommand → ℕ → Call
  replied : StoreCommand → ℕ → Answer → Call
  refused : StoreCommand → StoreError → Call

abbrev pub has_returned : Call → Bool
has_returned idle = false
has_returned (checked command seen) = false
has_returned (waiting command n) = false
has_returned (replied command n answer) = true
has_returned (refused command e) = true

-- The thread: in its loop; out of it; with the core dropped; with the guard dropped too; ended, with
-- the receiver dropped last.
pub data Thread : Type 0 where
  running leaving core_dropped unwound ended : Thread

-- `StoreTask`: not yet asked to shut down; with the flag `ready` taken back; with the command sent; with
-- the thread joined.
pub data Task : Type 0 where
  kept unready asked joined : Task

abbrev pub is_ended : Thread → Bool
is_ended running = false
is_ended leaving = false
is_ended core_dropped = false
is_ended unwound = false
is_ended ended = true

-- a command that the thread took, with what it sent for it
pub record Done : Type 0 where
  pub command : StoreCommand
  pub answers : List Answer

-- `receiver.await`, when a command was sent as the n-th: what the thread sent for it
abbrev pub answer_of : Option Done → Option Answer
answer_of none = none
answer_of (some done) = first done.answers
  where
    first : List Answer → Option Answer
    first [] = none
    first (a ∷ rest) = some a

-- what was sent, after an attempt to send a command
abbrev pub note {ℓ} :
    {E : Type ℓ} → Result E (Unit {0}) → StoreCommand → List StoreCommand → List StoreCommand
note (ok _) command sent = command ∷ sent
note (err e) command sent = sent

abbrev pub after_send : Result StoreError (Unit {0}) → StoreCommand → ℕ → Call
after_send (ok _) command n = waiting command n
after_send (err e) command n = refused command e

module _ (x : Crates) (m : Mpsc StoreCommand) where
  open x use {db}

  -- `sent` and `log` tell what was sent and what the thread took, the newest first.
  pub record System : Type 0 where
    pub core : StoreCore db
    pub queue : m.Queue
    pub thread : Thread
    pub task : Task
    pub calls : ℕ → Call
    pub sent : List StoreCommand
    pub log : List Done

  -- what `spawn_store` leaves
  abbrev pub init : StoreCore db → System
  init core = record {
    core = core;
    queue = m.channel core.config.queue_capacity;
    thread = running;
    task = kept;
    calls = λ _. idle;
    sent = [];
    log = [];
  }

  -- `send` of a handle, with the flags as they were read
  abbrev pub sends : System → ℕ → StoreCommand → SharedState → System
  sends s i command seen =
      let tried = send m.try_send seen command s.queue in
      record s {
        queue = tried.1;
        calls = update s.calls i (after_send tried.0 command (length s.sent));
        sent = note tried.0 command s.sent;
      }

  -- the thread takes a command, and tests whether to go on
  abbrev pub takes : System → StoreCommand → System
  takes s command =
      let done = execute x command s.core in
      record s {
        core = done.core;
        queue = (m.recv s.queue).1;
        thread = if done.stop || not done.core.shared.alive then leaving else running;
        log = record { command = command; answers = done.answers } ∷ s.log;
      }

  -- the state of the core and its session are dropped
  abbrev pub drop_core : System → System
  drop_core s = record s {
    core = record s.core { state = none; world = close_state x s.core.state s.core.world };
    thread = core_dropped;
  }

  -- `StoreTask::shutdown` takes the flag `ready` back
  abbrev pub take_ready : System → System
  take_ready s = record s {
    core = record s.core { shared = record s.core.shared { ready = false } };
    task = unready;
  }

  -- `StoreTask::shutdown` sends its command. It waits while the channel is full; a channel that is
  -- closed is not an error.
  abbrev pub ask : System → System
  ask s =
      let tried = m.try_send shutdown s.queue in
      record s { queue = tried.1; task = asked; sent = note tried.0 shutdown s.sent }

  -- the steps of the thread of the actor
  pub data ThreadStep (s : System) : System → Type 0 where
    take_command :
        (command : StoreCommand)
        → s.thread ≡ running
        → (m.recv s.queue).0 ≡ some command
        → ThreadStep s (takes s command)
    drop_state : s.thread ≡ leaving → ThreadStep s (drop_core s)
    drop_flags :
        s.thread ≡ core_dropped
        → ThreadStep s (record s {
          core = record s.core { shared = drop_guard s.core.shared };
          thread = unwound;
        })
    close_queue :
        s.thread ≡ unwound
        → ThreadStep s (record s { queue = m.drop_receiver s.queue; thread = ended })

  -- the steps of the clients and of the task
  pub data OtherStep (P : StoreCommand → Type 0) (s : System) : System → Type 0 where
    read_flags :
        (i : ℕ) (command : StoreCommand)
        → s.calls i ≡ idle
        → OtherStep P s (record s { calls = update s.calls i (checked command s.core.shared) })
    -- A client sends what `P` allows, and never a shutdown.
    try :
        (i : ℕ) (command : StoreCommand) (seen : SharedState)
        → P command
        → command ≢ shutdown
        → s.calls i ≡ checked command seen
        → OtherStep P s (sends s i command seen)
    call_again :
        (i : ℕ)
        → has_returned (s.calls i) ≡ true
        → OtherStep P s (record s { calls = update s.calls i idle })
    get_answer :
        (i n : ℕ) (command : StoreCommand) (done : Done) (answer : Answer)
        → s.calls i ≡ waiting command n
        → entry n s.log ≡ some done
        → answer_of (some done) ≡ some answer
        → OtherStep P s (record s { calls = update s.calls i (replied command n answer) })
    -- the command was dropped with the channel, and its `oneshot` sender with it
    lose_answer :
        (i n : ℕ) (command : StoreCommand)
        → s.calls i ≡ waiting command n
        → s.thread ≡ ended
        → entry n s.log ≡ none
        → OtherStep P s (record s { calls = update s.calls i (refused command unavailable) })
    begin_shutdown : s.task ≡ kept → OtherStep P s (take_ready s)
    send_shutdown :
        s.task ≡ unready → (m.try_send shutdown s.queue).0 ≢ err full → OtherStep P s (ask s)
    join : s.task ≡ asked → s.thread ≡ ended → OtherStep P s (record s { task = joined })

  pub data Reach (P : StoreCommand → Type 0) (core : StoreCore db) : System → Type 0 where
    start : Reach P core (init core)
    thread_step : {s t : System} → Reach P core s → ThreadStep s t → Reach P core t
    other_step : {s t : System} → Reach P core s → OtherStep P s t → Reach P core t
