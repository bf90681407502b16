-- ===== src/Actor/System/Countdown.antt =====
-- How many steps the thread of src/store.rs still takes, once a shutdown stands in its queue.
use aperip_nomos.Prelude.{
  ℕ, suc, ◌+◌, ◌≤◌, ◌≡◌, refl, inl, inr, Bool, true, false, not, ◌||◌, List, [], ◌∷◌, ◌++◌, any,
  if◌then◌else◌, arith, Bool-cases,
}
use aperip_nomos.Prelude.Result.{Result-cases}
use aperip_nomos.Database.{Crates}
use aperip_nomos.Store.State.{StoreCommand, create, list, get, delete, ping, shutdown, StoreCore}
use aperip_nomos.Actor.{send, execute}
use aperip_nomos.Actor.Channel.{Mpsc, MpscLaws}
use aperip_nomos.Actor.System.{
  System, Thread, running, leaving, core_dropped, unwound, ended, Task, kept, unready, asked,
  joined, ThreadStep, take_command, drop_state, drop_flags, close_queue, OtherStep, read_flags, try,
  call_again, get_answer, lose_answer, begin_shutdown, send_shutdown, join,
}

abbrev pub is_shutdown : StoreCommand → Bool
is_shutdown (create draft) = false
is_shutdown list = false
is_shutdown (get slug) = false
is_shutdown (delete slug) = false
is_shutdown ping = false
is_shutdown shutdown = true

-- the commands up to the first shutdown
abbrev pub until_shutdown : List StoreCommand → ℕ
until_shutdown [] = 0
until_shutdown (c ∷ l) = if is_shutdown c then 1 else suc (until_shutdown l)

until_shutdown-append :
    (l r : List StoreCommand)
    → any is_shutdown l ≡ true
    → until_shutdown (l ++ r) ≡ until_shutdown l
until_shutdown-append [] r h = cc
until_shutdown-append (c ∷ l) r h = ground (arith, until_shutdown-append l r)

any-append_left :
    (l r : List StoreCommand) → any is_shutdown l ≡ true → any is_shutdown (l ++ r) ≡ true
any-append_left [] r h = cc
any-append_left (c ∷ l) r h = ground (arith, any-append_left l r)

pub any-append_shutdown : (l : List StoreCommand) → any is_shutdown (l ++ (shutdown ∷ [])) ≡ true
any-append_shutdown [] = refl
any-append_shutdown (c ∷ l) = ground (arith, any-append_shutdown l)

-- the steps that the thread still takes, if a shutdown stands in the queue
abbrev pub remaining : Thread → List StoreCommand → ℕ
remaining running queue = until_shutdown queue + 3
remaining leaving queue = 3
remaining core_dropped queue = 2
remaining unwound queue = 1
remaining ended queue = 0

abbrev pub is_asked : Task → Bool
is_asked kept = false
is_asked unready = false
is_asked asked = true
is_asked joined = true

module _ (m : Mpsc StoreCommand) (q : MpscLaws m) (x : Crates) where
  open x use {db}

  execute-stop :
      (c : StoreCommand) (core : StoreCore db)
      → is_shutdown c ≡ true
      → (execute x c core).stop ≡ true
  unfolding execute
  execute-stop (create draft) core h = cc
  execute-stop list core h = cc
  execute-stop (get slug) core h = cc
  execute-stop (delete slug) core h = cc
  execute-stop ping core h = cc
  execute-stop shutdown core h = refl

  abbrev pub left : System x m → ℕ
  left s = remaining s.thread (q.contents s.queue)

  -- while the thread runs, the command of a task that has asked stands in the queue
  abbrev pub Pending : System x m → Type 0
  Pending s = s.thread ≡ running → any is_shutdown (q.contents s.queue) ≡ true

  goes :
      (stop : Bool) (queue : List StoreCommand) (n : ℕ)
      → (stop ≡ false → until_shutdown queue ≤ n)
      → remaining (if stop then leaving else running) queue ≤ n + 3
  goes true queue n h = omega arith
  goes false queue n h = omega (arith, h refl)

  took-left :
      (c : StoreCommand) (core : StoreCore db) (dead : Bool) (queue : List StoreCommand)
      → any is_shutdown (c ∷ queue) ≡ true
      → (suc (remaining (if (execute x c core).stop || dead then leaving else running) queue)
          ≤ until_shutdown (c ∷ queue) + 3)
        × ((if (execute x c core).stop || dead then leaving else running) ≡ running
            → any is_shutdown queue ≡ true)
  took-left c core dead queue h = elim (Bool-cases (is_shutdown c)) [
    | inl last ↦ rw (execute-stop c core last, last) (omega arith, λ k. cc)
    | inr other ↦
        let more = rw other at h in
        rw other (
          omega (
            arith,
            goes ((execute x c core).stop || dead) queue (until_shutdown queue) λ k. omega arith,
          ),
          λ k. more,
        )
  ]

  pub ThreadStep-left :
      {s t : System x m} → ThreadStep x m s t → Pending s → (suc (left t) ≤ left s) × Pending t
  ThreadStep-left {s} (take_command c h e) p =
      let k = q.recv_some c s.queue e in
      rw (h, k.0)
        (took-left c s.core (not (execute x c s.core).core.shared.alive)
          (q.contents (m.recv s.queue).1) (rw (k.0) at (p h)))
  ThreadStep-left {s} (drop_state h) p = (rw h (omega arith), λ k. cc)
  ThreadStep-left {s} (drop_flags h) p = (rw h (omega arith), λ k. cc)
  ThreadStep-left {s} (close_queue h) p = (rw h (omega arith), λ k. cc)

  sent-left :
      (thread : Thread) (c : StoreCommand) (queue : m.Queue)
      → (thread ≡ running → any is_shutdown (q.contents queue) ≡ true)
      → (remaining thread (q.contents (m.try_send c queue).1) ≤ remaining thread (q.contents queue))
        × (thread ≡ running → any is_shutdown (q.contents (m.try_send c queue).1) ≡ true)
  sent-left thread c queue p = elim (Result-cases (m.try_send c queue).0) [
    | inr (f, e) ↦ rw (q.try_send_err c queue f e) (omega arith, p)
    | inl (v, e) ↦
        let k = q.try_send_ok c queue e in
        rw (k.0) (longer thread p, λ r. any-append_left (q.contents queue) (c ∷ []) (p r))
  ]
    where
      longer :
          (thread : Thread)
          → (thread ≡ running → any is_shutdown (q.contents queue) ≡ true)
          → remaining thread (q.contents queue ++ (c ∷ [])) ≤ remaining thread (q.contents queue)
      longer running p = omega (arith, until_shutdown-append (q.contents queue) (c ∷ []) (p refl))
      longer leaving p = omega arith
      longer core_dropped p = omega arith
      longer unwound p = omega arith
      longer ended p = omega arith

  pub OtherStep-left :
      {P : StoreCommand → Type 0} {s t : System x m}
      → OtherStep x m P s t
      → is_asked s.task ≡ true
      → Pending s
      → (left t ≤ left s) × Pending t
  OtherStep-left (read_flags i c h) a p = (omega arith, p)
  OtherStep-left {s = s} (try i c seen u other h) a p = elim (Bool-cases seen.alive) [
    | inl alive ↦ unfold send in rw alive (sent-left s.thread c s.queue p)
    | inr dead ↦ unfold send in rw dead (omega arith, p)
  ]
  OtherStep-left (call_again i h) a p = (omega arith, p)
  OtherStep-left (get_answer i n c done b h e g) a p = (omega arith, p)
  OtherStep-left (lose_answer i n c h e g) a p = (omega arith, p)
  OtherStep-left (begin_shutdown h) a p = (omega arith, p)
  OtherStep-left {s = s} (send_shutdown h room) a p = sent-left s.thread shutdown s.queue p
  OtherStep-left (join h e) a p = (omega arith, p)
