-- ===== src/Tests/System.antt =====
-- A system whose client uploads a license and is answered, and whose task shuts it down.
use aperip_nomos.Prelude.{ℕ, some, ◌+◌, ◌≤◌, ◌≡◌, refl, ◌⊎◌, false, [], ◌∷◌}
use aperip_nomos.Prelude.Family.{update}
use aperip_nomos.Prelude.Result.{ok}
use aperip_nomos.Prelude.Int.{pos}
use aperip_nomos.Text.{Text}
use aperip_nomos.Domain.{into_document}
use aperip_nomos.Map.{lookup}
use aperip_nomos.Store.State.{create, shutdown}
use aperip_nomos.Store.Load.{open_database}
use aperip_nomos.Store.Core.{find}
use aperip_nomos.Actor.{created, is_ready, drop_guard, send}
use aperip_nomos.Actor.Spec.{View}
use aperip_nomos.Actor.Refinement.{Uploaded}
use aperip_nomos.Actor.System.{
  System, checked, waiting, replied, unwound, ended, is_ended, init, sends, takes, drop_core,
  take_ready, ask, ThreadStep, take_command, drop_state, drop_flags, close_queue, read_flags, try,
  get_answer, begin_shutdown, send_shutdown, Reach, start, thread_step, other_step,
}
use aperip_nomos.Actor.System.Numbers.{number_of}
use aperip_nomos.Actor.System.Order.{Ordered, Reach-IsOrdered}
use aperip_nomos.Actor.System.History.{History, halted, broken, Served, Reach-Served, ended_again}
use aperip_nomos.Actor.System.Answers.{Answered, Reach-Answered}
use aperip_nomos.Actor.System.Returns.{CanReturn, waiting-CanReturn}
use aperip_nomos.Actor.System.Countdown.{left}
use aperip_nomos.Actor.System.Shutdown.{Run, here, own, shutdown-ends}
use aperip_nomos.Tests.Crate.{crates}
use aperip_nomos.Tests.Crate.Laws.{memory_laws}
use aperip_nomos.Tests.Domain.{mit}
use aperip_nomos.Tests.Store.{fresh, fresh-IsOpen, settings, uploaded}
use aperip_nomos.Tests.Actor.{store_program, last}
use aperip_nomos.Tests.Queue.{list_queue, list_queue_laws}

abbrev Machine : Type 0
Machine = System crates list_queue

abbrev initial : Machine
initial = init crates list_queue (fresh [])

abbrev reading : Machine
reading = record initial {
  calls = update initial.calls 0 (checked (create mit) initial.core.shared);
}

abbrev asking : Machine
asking = sends crates list_queue reading 0 (create mit) initial.core.shared

abbrev unready_ : Machine
unready_ = take_ready crates list_queue asking

abbrev closing : Machine
closing = ask crates list_queue unready_

abbrev creating : Machine
creating = takes crates list_queue closing (create mit)

abbrev stopping : Machine
stopping = takes crates list_queue creating shutdown

abbrev dropped : Machine
dropped = drop_core crates list_queue stopping

abbrev quiet : Machine
quiet = record dropped {
  core = record dropped.core { shared = drop_guard dropped.core.shared };
  thread = unwound;
}

abbrev over : Machine
over = record quiet { queue = list_queue.drop_receiver quiet.queue; thread = ended }

abbrev Reached : Machine → Type 0
Reached s = Reach crates list_queue (Uploaded crates memory_laws) (fresh []) s

closing-Reached : Reached closing
unfolding send
closing-Reached =
    other_step
      (other_step
        (other_step (other_step start (read_flags 0 (create mit) refl))
          (try 0 (create mit) initial.core.shared uploaded (λ e. cc) refl))
        (begin_shutdown refl))
      (send_shutdown refl (λ e. cc))

creating_step : ThreadStep crates list_queue closing creating
unfolding send
creating_step = take_command (create mit) refl refl

stopping_step : ThreadStep crates list_queue creating stopping
unfolding store_program send
stopping_step = take_command shutdown refl refl

dropped_step : ThreadStep crates list_queue stopping dropped
unfolding store_program
dropped_step = drop_state refl

over-Reached : Reached over
over-Reached =
    thread_step
      (thread_step
        (thread_step (thread_step (thread_step closing-Reached creating_step) stopping_step)
          dropped_step)
        (drop_flags refl))
      (close_queue refl)

Reach-IsOrdered_example :
    Ordered list_queue list_queue_laws
      (Uploaded crates memory_laws)
      4
      ended
      over.queue
      over.sent
      over.log
Reach-IsOrdered_example =
    Reach-IsOrdered list_queue list_queue_laws (Uploaded crates memory_laws) 4 crates tt (fresh [])
      refl over-Reached

Reach-Served_example :
    Served crates memory_laws (find crates (fresh []).state) ended over.core over.log
Reach-Served_example =
    Reach-Served crates memory_laws list_queue list_queue_laws (fresh []) (fresh-IsOpen []) refl
      refl over over-Reached

reopened : (open_database crates settings over.core.world).0 ≡ ok last
unfolding store_program send
reopened = refl

ended_again_example :
    (is_ready over.core.shared ≡ false)
    × (((v : View) × History (find crates (fresh []).state) over.log (halted v)
          × ((slug : Text) → lookup slug last.licenses ≡ v slug))
        ⊎ History (find crates (fresh []).state) over.log broken)
ended_again_example =
    ended_again crates memory_laws list_queue list_queue_laws (fresh []) over settings last
      (fresh-IsOpen []) refl refl over-Reached refl reopened

abbrev answered : Machine
answered = record over {
  calls = update over.calls 0 (replied (create mit) 0 (created (ok (into_document mit (pos 1)))));
}

answered-Reached : Reached answered
unfolding store_program send
answered-Reached = other_step over-Reached (
    get_answer 0 0 (create mit)
      (record { command = create mit; answers = created (ok (into_document mit (pos 1))) ∷ [] })
      (created (ok (into_document mit (pos 1)))) refl refl refl)

Reach-Answered_example :
    Answered answered.sent answered.log (answered.calls 0)
    × ((j n : ℕ)
        → number_of (answered.calls 0) ≡ some n
        → number_of (answered.calls j) ≡ some n
        → 0 ≡ j)
Reach-Answered_example =
    Reach-Answered list_queue crates list_queue_laws (Uploaded crates memory_laws) tt (fresh [])
      answered answered-Reached 0

creating-Run :
    Run list_queue list_queue_laws crates (Uploaded crates memory_laws) closing 1 creating
creating-Run = own here creating_step

shutdown-ends_example :
    (1 + left list_queue list_queue_laws crates creating
      ≤ left list_queue list_queue_laws crates closing)
    × (is_ended creating.thread ≡ false → (u : Machine) × ThreadStep crates list_queue creating u)
shutdown-ends_example =
    shutdown-ends list_queue list_queue_laws crates (Uploaded crates memory_laws) (fresh []) closing
      creating 1 tt closing-Reached refl creating-Run

still_waiting : over.calls 0 ≡ waiting (create mit) 0
unfolding send
still_waiting = refl

waiting-CanReturn_example :
    CanReturn crates memory_laws list_queue list_queue_laws over 0 0 (create mit)
waiting-CanReturn_example =
    waiting-CanReturn crates memory_laws list_queue list_queue_laws (fresh []) over 0 0 (create mit)
      (fresh-IsOpen []) refl refl over-Reached refl still_waiting
