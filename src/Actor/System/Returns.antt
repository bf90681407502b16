-- ===== src/Actor/System/Returns.antt =====
-- No call of src/store.rs's handles waits for ever: at the latest when the thread has ended, it returns.
use aperip_nomos.Prelude.{
  ℕ, ◌≡◌, refl, sym, ◌∙◌, ◌⊎◌, inl, inr, true, List, [], ◌∷◌, some, length, ◌==◌, Option-cases,
  Bool-cases,
}
use aperip_nomos.Prelude.Family.{update}
use aperip_nomos.Database.{Crates, RnmdbLaws}
use aperip_nomos.Store.State.{StoreCommand, shutdown, unavailable, StoreCore}
use aperip_nomos.Store.Coherent.{Coherent}
use aperip_nomos.Actor.{Answer}
use aperip_nomos.Actor.Spec.{
  View, Allowed, create_ok, create_err, list_ok, get_any, delete_ok, delete_err, ping_ok, Lost,
  lost_create, lost_delete,
}
use aperip_nomos.Actor.Lives.{is_open}
use aperip_nomos.Actor.Refinement.{Uploaded}
use aperip_nomos.Actor.Channel.{Mpsc, MpscLaws}
use aperip_nomos.Actor.System.{
  System, ended, waiting, replied, refused, Done, answer_of, OtherStep, get_answer, lose_answer,
  Reach,
}
use aperip_nomos.Actor.System.Entries.{entry}
use aperip_nomos.Actor.System.Order.{Reach-IsOrdered}
use aperip_nomos.Actor.System.History.{
  Progress, History, begun, answered, shut_down, failed, Reach-Served,
}
use aperip_nomos.Actor.System.Answers.{Reach-Answered, own_answer}

Allowed-answer :
    {v v' : View} {c : StoreCommand} {answers : List Answer}
    → Allowed v v' c answers
    → (a : Answer) × (answers ≡ a ∷ [])
Allowed-answer (create_ok draft d free e seen) = (_, refl)
Allowed-answer (create_err draft e why same) = (_, refl)
Allowed-answer (list_ok documents l filled perm listed_ same) = (_, refl)
Allowed-answer (get_any slug same) = (_, refl)
Allowed-answer (delete_ok slug d here seen) = (_, refl)
Allowed-answer (delete_err slug e why same) = (_, refl)
Allowed-answer (ping_ok same) = (_, refl)

Lost-answer :
    {c : StoreCommand} {answers : List Answer} → Lost c answers → (a : Answer) × (answers ≡ a ∷ [])
Lost-answer (lost_create draft e) = (_, refl)
Lost-answer (lost_delete slug e) = (_, refl)

-- what the thread did for a command, if it is not a shutdown
abbrev Replied : Done → Type 0
Replied d = (d.command ≡ shutdown) ⊎ ((a : Answer) × (answer_of (some d) ≡ some a))

one_answer : (d : Done) → ((a : Answer) × (d.answers ≡ a ∷ [])) → Replied d
one_answer d (a, e) = inr (a, rw e refl)

newest :
    (n : ℕ) (d f : Done) (log : List Done)
    → entry n (d ∷ log) ≡ some f
    → Replied d
    → (entry n log ≡ some f → Replied f)
    → Replied f
newest n d f log e now before = elim (Bool-cases (n == length log)) [
  | inl last ↦ let k = rw last at e in let same : d ≡ f = cc in rw (← same) now
  | inr older ↦ before (rw older at e)
]

History-Replied :
    {v₀ : View} {log : List Done} {p : Progress}
    → History v₀ log p
    → (n : ℕ) (d : Done) → entry n log ≡ some d
    → Replied d
History-Replied begun n d e = cc
History-Replied (answered {d = f} {log = log} run allowed) n d e =
    newest n f d log e (one_answer f (Allowed-answer allowed)) (History-Replied run n d)
History-Replied (shut_down {d = f} {log = log} run last none_) n d e =
    newest n f d log e (inl last) (History-Replied run n d)
History-Replied (failed {d = f} {log = log} run loss) n d e =
    newest n f d log e (one_answer f (Lost-answer loss)) (History-Replied run n d)

module _ (x : Crates) (laws : RnmdbLaws x.db) (m : Mpsc StoreCommand) (q : MpscLaws m) where
  open x use {db}

  abbrev pub CanReturn : System x m → ℕ → ℕ → StoreCommand → Type 0
  CanReturn s i n c =
      ((a : Answer) × OtherStep x m (Uploaded x laws) s
          (record s { calls = update s.calls i (replied c n a) }))
      ⊎ OtherStep x m (Uploaded x laws) s
          (record s { calls = update s.calls i (refused c unavailable) })

  -- Once the thread has ended, a call that still waits can return: with the answer to its command, if
  -- the thread took it, and as unavailable if it did not.
  pub waiting-CanReturn :
      (core : StoreCore db) (s : System x m) (i n : ℕ) (c : StoreCommand)
      → Coherent x laws core
      → core.shared.alive ≡ true
      → is_open x core.state ≡ true
      → Reach x m (Uploaded x laws) core s
      → s.thread ≡ ended
      → s.calls i ≡ waiting c n
      → CanReturn s i n c
  waiting-CanReturn core s i n c h alive open_ reached over at_ =
      let own = rw at_ at (Reach-Answered m x q (Uploaded x laws) tt core s reached i).0 in
      let order =
        Reach-IsOrdered m q (Uploaded x laws) core.config.queue_capacity x tt core refl reached in
      elim (Option-cases (entry n s.log)) [
        | inl untaken ↦ inr (lose_answer i n c at_ over untaken)
        | inr (d, taken) ↦
            let mine = own_answer m x s.sent s.log order.rest n c d order.fifo (own.0) taken in
            let taken_up : Replied d → CanReturn s i n c = λ replied. elim replied [
              | inl last ↦ absurd (own.1 (sym mine ∙ last))
              | inr (a, given) ↦ inl (a, get_answer i n c d a at_ taken given)
            ] in
            let served = rw over at (Reach-Served x laws m q core h alive open_ s reached) in
            elim (served.0) [
              | inl (v, run, kept) ↦ taken_up (History-Replied run n d taken)
              | inr run ↦ taken_up (History-Replied run n d taken)
            ]
      ]
