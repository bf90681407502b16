-- ===== src/Actor.antt =====
-- The actor of src/store.rs: the handles that send it commands, the loop of its thread, and the
-- flags that it leaves. The channel between them is a crate; `try_send` is its attempt to put a
-- command into the queue, and the loop is given the commands that it receives.
pub mod Spec
pub mod Lives
pub mod Stepped
pub mod Refinement
pub mod Channel
pub mod System
use aperip_nomos.Prelude.{
  Bool, true, false, not, ◌&&◌, ◌||◌, List, [], ◌∷◌, Option, none, some, if◌then◌else◌,
}
use aperip_nomos.Prelude.Result.{Result, ok, err, map_err}
use aperip_nomos.Domain.{LicenseDocument, LicenseMetadata}
use aperip_nomos.Database.{Crates}
use aperip_nomos.Store.State.{
  StoreCommand, create, list, get, delete, ping, shutdown, StoreError, queue_full, unavailable,
  SharedState, StoreCore,
}
use aperip_nomos.Store.Core.{
  create as create_license, list as list_licenses, get as get_license, delete as delete_license,
  close_state,
}

-- what is sent on the `oneshot` channel of a command
pub data Answer : Type 0 where
  created : Result StoreError LicenseDocument → Answer
  listed : Result StoreError (List LicenseMetadata) → Answer
  got : Result StoreError LicenseDocument → Answer
  deleted : Result StoreError LicenseDocument → Answer
  pinged : Result StoreError (Unit {0}) → Answer

-- `mpsc::error::TrySendError`
pub data TrySendError : Type 0 where
  full closed : TrySendError

unfoldable pub send_error : TrySendError → StoreError
send_error full = queue_full
send_error closed = unavailable

-- `LicenseStore::is_ready`
unfoldable pub is_ready : SharedState → Bool
is_ready shared = shared.ready && shared.alive

-- `LicenseStore::send`
unfoldable pub send {ℓ} :
    {Queue : Type ℓ}
    → (StoreCommand → Queue → Result TrySendError (Unit {0}) × Queue)
    → SharedState
    → StoreCommand
    → Queue
    → Result StoreError (Unit {0}) × Queue
send try_send shared command queue =
    if not shared.alive
    then (err unavailable, queue)
    else (map_err send_error (try_send command queue).0, (try_send command queue).1)

-- `receive`: `none` is an answer whose sender was dropped
unfoldable pub receive {ℓ} : {A : Type ℓ} → Option (Result StoreError A) → Result StoreError A
receive none = err unavailable
receive (some answer) = answer

-- the drop of `ActorHealthGuard`
unfoldable pub drop_guard : SharedState → SharedState
drop_guard shared = record { ready = false; alive = false; liveness = false }

module _ (x : Crates) where
  open x use {db}

  -- the result of `execute`, with the answer that it sent
  pub record Executed : Type 0 where
    pub stop : Bool
    pub answers : List Answer
    pub core : StoreCore db

  unfoldable pub execute : StoreCommand → StoreCore db → Executed
  execute (create draft) core =
      let done = create_license x draft core in
      record { stop = false; answers = created done.0 ∷ []; core = done.1 }
  execute list core = record {
    stop = false;
    answers = listed (list_licenses x core) ∷ [];
    core = core;
  }
  execute (get slug) core = record {
    stop = false;
    answers = got (get_license x core slug) ∷ [];
    core = core;
  }
  execute (delete slug) core =
      let done = delete_license x slug core in
      record { stop = false; answers = deleted done.0 ∷ []; core = done.1 }
  execute ping core = record { stop = false; answers = pinged (ok tt) ∷ []; core = core }
  execute shutdown core = record { stop = true; answers = []; core = core }

  -- the loop of the thread over the commands that it receives
  unfoldable pub serve : List StoreCommand → StoreCore db → List (List Answer) × StoreCore db
  serve [] core = ([], core)
  serve (command ∷ rest) core =
      let done = execute command core in
      let more = serve rest done.core in
      if done.stop || not done.core.shared.alive
      then (done.answers ∷ [], done.core)
      else (done.answers ∷ more.0, more.1)

  -- the thread: when its loop ends, the core is dropped, then the guard
  unfoldable pub run_actor :
      List StoreCommand → StoreCore db → List (List Answer) × (SharedState × db.World)
  run_actor commands core =
      let done = serve commands core in
      (done.0, (drop_guard done.1.shared, close_state x done.1.state done.1.world))
