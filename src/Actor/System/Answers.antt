-- ===== src/Actor/System/Answers.antt =====
-- The calls of src/store.rs's handles: each gets the answer to its own command, or an error.
use aperip_nomos.Prelude.{
  ℕ, ◌≡◌, ◌≢◌, refl, ◌⊎◌, inl, inr, List, ◌∷◌, some, length, map, Bool-cases,
}
use aperip_nomos.Prelude.Family.{update_all}
use aperip_nomos.Prelude.Result.{Result, ok, err, map_err}
use aperip_nomos.Database.{Crates}
use aperip_nomos.Store.State.{
  StoreCommand, queue_full, unavailable, shutdown, SharedState, StoreCore,
}
use aperip_nomos.Actor.{TrySendError, full, closed, send_error, send}
use aperip_nomos.Actor.Channel.{Mpsc, MpscLaws}
use aperip_nomos.Actor.System.{
  System, Call, idle, checked, waiting, replied, refused, Done, note, answer_of, after_send,
  ThreadStep, take_command, drop_state, drop_flags, close_queue, OtherStep, read_flags, try,
  call_again, get_answer, lose_answer, begin_shutdown, send_shutdown, join, Reach, start,
  thread_step, other_step,
}
use aperip_nomos.Actor.System.Entries.{
  add_all, entry, entry_kept, entry_last, entry-add_all, entry-map,
}
use aperip_nomos.Actor.System.Numbers.{number_of, Reach-Numbered}
use aperip_nomos.Actor.System.Order.{Reach-IsOrdered}

-- What a call relies on. The command of one that waits was sent under its number. One that has returned
-- an answer has the one that the thread gave to the command of its number, and that is its own; one
-- that has failed has one of two errors of the channel.
abbrev pub Answered : List StoreCommand → List Done → Call → Type 0
Answered sent log idle = Unit
Answered sent log (checked command seen) = Unit
Answered sent log (waiting command n) = (entry n sent ≡ some command) × (command ≢ shutdown)
Answered sent log (replied command n answer) =
    (entry n sent ≡ some command)
    × ((done : Done) × (entry n log ≡ some done)
        × (done.command ≡ command)
        × (answer_of (some done) ≡ some answer))
Answered sent log (refused command e) = (e ≡ queue_full) ⊎ (e ≡ unavailable)

-- what is sent later takes nothing from a call
later_sent :
    (sent : List StoreCommand) (log : List Done) (c : StoreCommand) (call : Call)
    → Answered sent log call
    → Answered (c ∷ sent) log call
later_sent sent log c idle h = tt
later_sent sent log c (checked command seen) h = tt
later_sent sent log c (waiting command n) h = (entry_kept n c sent command (h.0), h.1)
later_sent sent log c (replied command n answer) h = (entry_kept n c sent command (h.0), h.1)
later_sent sent log c (refused command e) h = h

later_note {ℓ} :
    {E : Type ℓ} (r : Result E (Unit {0})) (sent : List StoreCommand) (log : List Done)
    (c : StoreCommand) (call : Call)
    → Answered sent log call
    → Answered (note r c sent) log call
later_note (ok v) sent log c call h = later_sent sent log c call h
later_note (err e) sent log c call h = h

later_log :
    (sent : List StoreCommand) (log : List Done) (d : Done) (call : Call)
    → Answered sent log call
    → Answered sent (d ∷ log) call
later_log sent log d idle h = tt
later_log sent log d (checked command seen) h = tt
later_log sent log d (waiting command n) h = h
later_log sent log d (replied command n answer) (asked_, (done, at_, same, given)) =
    (asked_, (done, entry_kept n d log done at_, same, given))
later_log sent log d (refused command e) h = h

module _ (m : Mpsc StoreCommand) (x : Crates) where
  abbrev AllAnswered : System x m → Type 0
  AllAnswered s = (i : ℕ) → Answered s.sent s.log (s.calls i)

  sent-Answered :
      (sent : List StoreCommand) (log : List Done) (c : StoreCommand) (seen : SharedState)
      (queue : m.Queue)
      → c ≢ shutdown
      → Answered
          (note (send m.try_send seen c queue).0 c sent)
          log
          (after_send (send m.try_send seen c queue).0 c (length sent))
  unfolding send send_error
  sent-Answered sent log c seen queue other = elim (Bool-cases seen.alive) [
    | inr dead ↦ rw dead (inr refl)
    | inl alive ↦ rw alive (tried (m.try_send c queue).0)
  ]
    where
      tried :
          (r : Result TrySendError (Unit {0}))
          → Answered
              (note (map_err send_error r) c sent)
              log
              (after_send (map_err send_error r) c (length sent))
      tried (ok v) = (entry_last c sent, other)
      tried (err full) = inl refl
      tried (err closed) = inr refl

  ThreadStep-AllAnswered : {s t : System x m} → ThreadStep x m s t → AllAnswered s → AllAnswered t
  ThreadStep-AllAnswered {s} (take_command c h e) k =
      λ i. later_log s.sent s.log _ (s.calls i) (k i)
  ThreadStep-AllAnswered {s} (drop_state h) k = k
  ThreadStep-AllAnswered {s} (drop_flags h) k = k
  ThreadStep-AllAnswered {s} (close_queue h) k = k

  pub own_answer :
      (sent : List StoreCommand) (log : List Done) (rest : List StoreCommand) (n : ℕ)
      (c : StoreCommand) (done : Done)
      → sent ≡ add_all rest (map (λ d. d.command) log)
      → entry n sent ≡ some c
      → entry n log ≡ some done
      → done.command ≡ c
  own_answer sent log rest n c done fifo asked given =
      let k =
        entry-add_all n rest (map (λ d. d.command) log) done.command
          (entry-map (λ d. d.command) n log done given) in
      cc

  OtherStep-AllAnswered :
      {P : StoreCommand → Type 0} {s t : System x m}
      → OtherStep x m P s t
      → ((rest : List StoreCommand) × (s.sent ≡ add_all rest (map (λ d. d.command) s.log)))
      → AllAnswered s
      → AllAnswered t
  OtherStep-AllAnswered {s = s} (read_flags i c h) f k =
      update_all (Answered s.sent s.log) s.calls i _ k tt
  OtherStep-AllAnswered {s = s} (try i c seen u other h) f k =
      update_all (Answered _ s.log) s.calls i _
        (λ j. later_note (send m.try_send seen c s.queue).0 s.sent s.log c (s.calls j) (k j))
        (sent-Answered s.sent s.log c seen s.queue other)
  OtherStep-AllAnswered {s = s} (call_again i h) f k =
      update_all (Answered s.sent s.log) s.calls i _ k tt
  OtherStep-AllAnswered {s = s} (get_answer i n c done a h e given) (rest, fifo) k =
      let asked_ = rw h at (k i) in
      update_all (Answered s.sent s.log) s.calls i _ k
        (asked_.0, (done, e, own_answer s.sent s.log rest n c done fifo (asked_.0) e, given))
  OtherStep-AllAnswered {s = s} (lose_answer i n c h e g) f k =
      update_all (Answered s.sent s.log) s.calls i _ k (inr refl)
  OtherStep-AllAnswered (begin_shutdown h) f k = k
  OtherStep-AllAnswered {s = s} (send_shutdown h room) f k =
      λ i. later_note (m.try_send shutdown s.queue).0 s.sent s.log shutdown (s.calls i) (k i)
  OtherStep-AllAnswered (join h e) f k = k

  every_call :
      (q : MpscLaws m) (P : StoreCommand → Type 0)
      → P shutdown
      → (core : StoreCore x.db) (s : System x m) → Reach x m P core s
      → AllAnswered s
  every_call q P p core s start = λ i. tt
  every_call q P p core s (thread_step reached step) =
      ThreadStep-AllAnswered step (every_call q P p core _ reached)
  every_call q P p core s (other_step reached step) =
      let order = Reach-IsOrdered m q P core.config.queue_capacity x p core refl reached in
      OtherStep-AllAnswered step (order.rest, order.fifo) (every_call q P p core _ reached)

  -- In every state that can be reached, a call that has returned an answer was given what the thread
  -- sent for the command that this call sent, which is told by its number among the commands sent, and
  -- no two calls have one number. A call that has failed was told that the queue was full or that the
  -- actor is unavailable; one that waits has its command among those that were sent.
  pub Reach-Answered :
      (q : MpscLaws m) (P : StoreCommand → Type 0)
      → P shutdown
      → (core : StoreCore x.db) (s : System x m) → Reach x m P core s
      → (i : ℕ)
      → Answered s.sent s.log (s.calls i)
        × ((j n : ℕ) → number_of (s.calls i) ≡ some n → number_of (s.calls j) ≡ some n → i ≡ j)
  Reach-Answered q P p core s reached i = (
    every_call q P p core s reached i,
    λ j n own other. (Reach-Numbered m x P core s reached).apart i j n own other,
  )
