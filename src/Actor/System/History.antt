-- ===== src/Actor/System/History.antt =====
-- What the clients of src/store.rs see of its actor: the commands that the thread took, in this order,
-- are a run of the map of documents, and the file that it leaves holds the map that this run ends in.
use aperip_nomos.Prelude.{
  ◌≡◌, refl, ◌∙◌, ◌⊎◌, inl, inr, true, false, List, [], ◌∷◌, Option, none, some, not, ◌||◌,
  if◌then◌else◌,
}
use aperip_nomos.Prelude.Result.{ok}
use aperip_nomos.Prelude.Int.{ℤ}
use aperip_nomos.Text.{Text}
use aperip_nomos.Domain.{LicenseDocument}
use aperip_nomos.Map.{Map, lookup}
use aperip_nomos.Database.{Crates, RnmdbLaws}
use aperip_nomos.Store.State.{
  StoreConfig, StoreCommand, shutdown, SharedState, DatabaseState, StoreCore,
}
use aperip_nomos.Store.Load.{open_database}
use aperip_nomos.Store.Core.{find, close_state}
use aperip_nomos.Store.Coherent.{StateCoherent, Coherent, Loads, Loads-unique}
use aperip_nomos.Store.Reopen.{open_database-IsOpen}
use aperip_nomos.Actor.{is_ready, execute, drop_guard}
use aperip_nomos.Actor.Spec.{View, Allowed, Lost}
use aperip_nomos.Actor.Lives.{is_open}
use aperip_nomos.Actor.Refinement.{Uploaded, execute-Stepped}
use aperip_nomos.Actor.Channel.{Mpsc, MpscLaws}
use aperip_nomos.Actor.System.{
  System, Thread, running, leaving, core_dropped, unwound, ended, Done, ThreadStep, take_command,
  drop_state, drop_flags, close_queue, OtherStep, read_flags, try, call_again, get_answer,
  lose_answer, begin_shutdown, send_shutdown, join, Reach, start, thread_step, other_step,
}
use aperip_nomos.Actor.System.Order.{Reach-IsOrdered}

-- how far a run has come: it goes on, with a view; it was shut down in a view; its state was lost
pub data Progress : Type 0 where
  going halted : View → Progress
  broken : Progress

-- the run of the commands that were taken, the newest first, from the view `v₀`
pub data History (v₀ : View) : List Done → Progress → Type 0 where
  begun : History v₀ [] (going v₀)
  answered :
      {v v' : View} {d : Done} {log : List Done}
      → History v₀ log (going v)
      → Allowed v v' d.command d.answers
      → History v₀ (d ∷ log) (going v')
  shut_down :
      {v : View} {d : Done} {log : List Done}
      → History v₀ log (going v)
      → d.command ≡ shutdown
      → d.answers ≡ []
      → History v₀ (d ∷ log) (halted v)
  failed :
      {v : View} {d : Done} {log : List Done}
      → History v₀ log (going v)
      → Lost d.command d.answers
      → History v₀ (d ∷ log) broken

module _ (x : Crates) (laws : RnmdbLaws x.db) where
  open x use {db}
  open laws use {table, pending}

  -- the committed rows load to the documents of the view, and no transaction is open
  pub record Holds (v : View) (w : db.World) : Type 0 where
    pub closed : pending w ≡ none
    pub documents : Map LicenseDocument
    pub bound : ℤ
    pub loads : Loads x laws (table w) documents bound
    pub shows : (slug : Text) → lookup slug documents ≡ v slug

  -- what a run leaves in the file
  abbrev pub Left : View → db.World → List Done → Type 0
  Left v₀ w log = ((v : View) × History v₀ log (halted v) × Holds v w) ⊎ History v₀ log broken

  abbrev pub AllOff : SharedState → Type 0
  AllOff shared = (shared.ready ≡ false) × (shared.alive ≡ false) × (shared.liveness ≡ false)

  -- While the thread runs, its core is coherent, alive and open, and readers see the view that the run
  -- has come to. Once it has left its loop, the run was shut down in the view that the file holds, or
  -- the state was lost; and once the guard is dropped the flags are off.
  abbrev pub Served : View → Thread → StoreCore db → List Done → Type 0
  Served v₀ running core log =
      Coherent x laws core
      × (core.shared.alive ≡ true)
      × (is_open x core.state ≡ true)
      × History v₀ log (going (find x core.state))
  Served v₀ leaving core log =
      Coherent x laws core
      × (((is_open x core.state ≡ true) × History v₀ log (halted (find x core.state)))
          ⊎ History v₀ log broken)
  Served v₀ core_dropped core log = Left v₀ core.world log
  Served v₀ unwound core log = Left v₀ core.world log × AllOff core.shared
  Served v₀ ended core log = Left v₀ core.world log × AllOff core.shared

  took-Served :
      (v₀ : View) (core : StoreCore db) (c : StoreCommand) (log : List Done)
      → Uploaded x laws c
      → Served v₀ running core log
      → Served v₀
          (if (execute x c core).stop || not (execute x c core).core.shared.alive
            then leaving
            else running)
          (execute x c core).core
          (record { command = c; answers = (execute x c core).answers } ∷ log)
  took-Served v₀ core c log u (coherent, alive, open_, run) =
      elim (execute-Stepped x laws core c coherent alive open_ u) [
        | inl s ↦ elim s.outcome [
          | inl (allowed, alive', kept) ↦
              rw (s.running, alive') (s.coherent, alive', kept open_, answered run allowed)
          | inr (loss, dead) ↦ rw (s.running, dead) (s.coherent, inr (failed run loss))
        ]
        | inr last ↦ rw last (unfold execute in (coherent, inl (open_, shut_down run refl refl)))
      ]

  close_state-Holds :
      (o : Option (DatabaseState db)) (w : db.World)
      → is_open x o ≡ true
      → StateCoherent x laws o w
      → Holds (find x o) (close_state x o w)
  unfolding find
  close_state-Holds none w e h = cc
  close_state-Holds (some state) w e h =
      let shut = laws.close_table state.session w in
      record {
        closed = shut.1;
        documents = state.licenses;
        bound = state.next_id;
        loads = rw (shut.0) h.mirror;
        shows = λ slug. refl;
      }

  dropped-Left :
      (v₀ : View) (core : StoreCore db) (log : List Done)
      → Served v₀ leaving core log
      → Left v₀ (close_state x core.state core.world) log
  dropped-Left v₀ core log (coherent, inl (open_, run)) =
      inl (find x core.state, run, close_state-Holds core.state core.world open_ coherent)
  dropped-Left v₀ core log (coherent, inr run) = inr run

  -- the flag `ready` may go out at any time
  unready-Served :
      (v₀ : View) (thread : Thread) (core : StoreCore db) (log : List Done)
      → Served v₀ thread core log
      → Served v₀ thread (record core { shared = record core.shared { ready = false } }) log
  unready-Served v₀ running core log h = h
  unready-Served v₀ leaving core log h = h
  unready-Served v₀ core_dropped core log h = h
  unready-Served v₀ unwound core log h = (h.0, (refl, h.1.1, h.1.2))
  unready-Served v₀ ended core log h = (h.0, (refl, h.1.1, h.1.2))

  -- a database that is opened on what an actor left
  reopened-Left :
      (v₀ : View) (w : db.World) (log : List Done) (config : StoreConfig) (state : DatabaseState db)
      → Left v₀ w log
      → (open_database x config w).0 ≡ ok state
      → ((v : View) × History v₀ log (halted v)
          × ((slug : Text) → lookup slug state.licenses ≡ v slug))
        ⊎ History v₀ log broken
  reopened-Left v₀ w log config state (inr run) made = inr run
  reopened-Left v₀ w log config state (inl (v, run, h)) made =
      let again = open_database-IsOpen x laws config w h.closed in
      inl (
        v,
        run,
        λ slug.
            Loads-unique x laws _ _ state.licenses h.documents state.next_id h.bound slug (again.0)
              (again.1 state made).mirror h.loads
            ∙ h.shows slug,
      )

  module _ (m : Mpsc StoreCommand) (q : MpscLaws m) (v₀ : View) where
    -- the core of a system and the commands that its thread took
    abbrev pub IsServed : System x m → Type 0
    IsServed s = Served v₀ s.thread s.core s.log

    at_thread :
        (s : System x m) (thread : Thread)
        → s.thread ≡ thread
        → IsServed s
        → Served v₀ thread s.core s.log
    at_thread s thread e h = rw (← e) h

    ThreadStep-IsServed :
        {s t : System x m}
        → ThreadStep x m s t
        → ((c : StoreCommand) → (m.recv s.queue).0 ≡ some c → Uploaded x laws c)
        → IsServed s
        → IsServed t
    ThreadStep-IsServed {s} (take_command c h e) u k =
        took-Served v₀ s.core c s.log (u c e) (at_thread s running h k)
    ThreadStep-IsServed {s} (drop_state h) u k =
        dropped-Left v₀ s.core s.log (at_thread s leaving h k)
    ThreadStep-IsServed {s} (drop_flags h) u k =
        unfold drop_guard in (at_thread s core_dropped h k, (refl, refl, refl))
    ThreadStep-IsServed {s} (close_queue h) u k = at_thread s unwound h k

    OtherStep-IsServed :
        {s t : System x m} → OtherStep x m (Uploaded x laws) s t → IsServed s → IsServed t
    OtherStep-IsServed (read_flags i c h) k = k
    OtherStep-IsServed (try i c seen u other h) k = k
    OtherStep-IsServed (call_again i h) k = k
    OtherStep-IsServed (get_answer i n c done a h e f) k = k
    OtherStep-IsServed (lose_answer i n c h e f) k = k
    OtherStep-IsServed {s} (begin_shutdown h) k = unready-Served v₀ s.thread s.core s.log k
    OtherStep-IsServed (send_shutdown h room) k = k
    OtherStep-IsServed (join h e) k = k

  module _ (m : Mpsc StoreCommand) (q : MpscLaws m) where
    -- However clients, thread and task are interleaved: while the thread runs, its core is coherent and
    -- the commands that it took were answered, each in its turn, as the map of documents allows, which
    -- comes to what readers see; after its loop, that run was shut down and the file holds the map that
    -- it came to, or the state was lost; and in the end every flag is off.
    pub Reach-Served :
        (core : StoreCore db)
        → Coherent x laws core
        → core.shared.alive ≡ true
        → is_open x core.state ≡ true
        → (s : System x m) → Reach x m (Uploaded x laws) core s
        → Served (find x core.state) s.thread s.core s.log
    Reach-Served core h alive open_ s start = (h, alive, open_, begun)
    Reach-Served core h alive open_ s (thread_step {s = r} reached step) =
        let order =
          Reach-IsOrdered m q (Uploaded x laws) core.config.queue_capacity x tt core refl reached in
        let received : (c : StoreCommand) → (m.recv r.queue).0 ≡ some c → Uploaded x laws c =
          λ c e. (rw ((q.recv_some c r.queue e).0) at order.every).0 in
        ThreadStep-IsServed m q (find x core.state) step received
          (Reach-Served core h alive open_ r reached)
    Reach-Served core h alive open_ s (other_step {s = r} reached step) =
        OtherStep-IsServed m q (find x core.state) step (Reach-Served core h alive open_ r reached)

    -- When the thread has ended, in whatever order its clients were served, `is_ready` is false, and a
    -- database that is opened on the file shows exactly the documents of the map that the run of the
    -- commands came to when it was shut down, unless the state was lost in a recovery.
    pub ended_again :
        (core : StoreCore db) (s : System x m) (config : StoreConfig) (state : DatabaseState db)
        → Coherent x laws core
        → core.shared.alive ≡ true
        → is_open x core.state ≡ true
        → Reach x m (Uploaded x laws) core s
        → s.thread ≡ ended
        → (open_database x config s.core.world).0 ≡ ok state
        → (is_ready s.core.shared ≡ false)
          × (((v : View) × History (find x core.state) s.log (halted v)
                × ((slug : Text) → lookup slug state.licenses ≡ v slug))
              ⊎ History (find x core.state) s.log broken)
    unfolding is_ready
    ended_again core s config state h alive open_ reached e made =
        let k =
          at_thread m q (find x core.state) s ended e (Reach-Served core h alive open_ s reached) in
        (
          rw (k.1.0) refl,
          reopened-Left (find x core.state) s.core.world s.log config state (k.0) made,
        )
