-- ===== src/Actor/System/Numbers.antt =====
-- The numbers of the commands that the calls of src/store.rs's handles have sent: no two calls share one,
-- as each has a `oneshot` channel of its own.
use aperip_nomos.Prelude.{
  ℕ, ◌<◌, ◌≤◌, ◌≡◌, sym, ◌∙◌, ◌⊎◌, inl, inr, List, Option, none, some, length, ◌==◌, ==_iff, arith,
  Bool-cases,
}
use aperip_nomos.Prelude.Family.{update}
use aperip_nomos.Prelude.Result.{Result, ok, err}
use aperip_nomos.Database.{Crates}
use aperip_nomos.Store.State.{StoreCommand, shutdown, StoreError, StoreCore}
use aperip_nomos.Actor.{send}
use aperip_nomos.Actor.Channel.{Mpsc}
use aperip_nomos.Actor.System.{
  System, Call, idle, checked, waiting, replied, refused, note, after_send, ThreadStep,
  take_command, drop_state, drop_flags, close_queue, OtherStep, read_flags, try, call_again,
  get_answer, lose_answer, begin_shutdown, send_shutdown, join, Reach, start, thread_step,
  other_step,
}

-- the number under which a call has sent its command
abbrev pub number_of : Call → Option ℕ
number_of idle = none
number_of (checked command seen) = none
number_of (waiting command n) = some n
number_of (replied command n answer) = some n
number_of (refused command e) = none

-- the numbers are below `k`, and no two calls have the same
pub record Numbered (k : ℕ) (calls : ℕ → Call) : Type 0 where
  pub below : (i n : ℕ) → number_of (calls i) ≡ some n → n < k
  pub apart : (i j n : ℕ) → number_of (calls i) ≡ some n → number_of (calls j) ≡ some n → i ≡ j

-- what a changed call may have: its old number, or the next one
abbrev Renumbers : ℕ → ℕ → Call → Call → Type 0
Renumbers k l old new =
    (n : ℕ) → number_of new ≡ some n → (number_of old ≡ some n) ⊎ ((n ≡ k) × (k < l))

-- a number after one call has changed
updated :
    (k l : ℕ) (calls : ℕ → Call) (i : ℕ) (new : Call)
    → Renumbers k l (calls i) new
    → (j n : ℕ) → number_of (update calls i new j) ≡ some n
    → (number_of (calls j) ≡ some n) ⊎ ((i ≡ j) × (n ≡ k) × (k < l))
updated k l calls i new r j n e = elim (Bool-cases (i == j)) [
  | inr other ↦ inl (rw other at e)
  | inl here ↦
      let same = (==_iff i j).0 here in
      elim (r n (rw here at e)) [
        | inl old ↦ inl (rw (← same) old)
        | inr (next, more) ↦ inr (same, next, more)
      ]
]

update-Numbered :
    (k l : ℕ) (calls : ℕ → Call) (i : ℕ) (new : Call)
    → k ≤ l
    → Renumbers k l (calls i) new
    → Numbered k calls
    → Numbered l (update calls i new)
update-Numbered k l calls i new le r h = record {
  below = λ j n e. elim (updated k l calls i new r j n e) [
    | inl old ↦ omega (arith, h.below j n old)
    | inr (same, next, more) ↦ omega arith
  ];
  apart = λ a b n e f. elim (updated k l calls i new r a n e) [
    | inl old ↦ elim (updated k l calls i new r b n f) [
      | inl older ↦ h.apart a b n old older
      | inr (same, next, more) ↦ absurd (omega (arith, h.below a n old))
    ]
    | inr (same, next, more) ↦ elim (updated k l calls i new r b n f) [
      | inl older ↦ absurd (omega (arith, h.below b n older))
      | inr (same', next', more') ↦ sym same ∙ same'
    ]
  ];
}

Numbered-mono : (k l : ℕ) (calls : ℕ → Call) → k ≤ l → Numbered k calls → Numbered l calls
Numbered-mono k l calls le h = record {
  below = λ i n e. omega (arith, h.below i n e);
  apart = h.apart;
}

length-note {ℓ} :
    {E : Type ℓ} (r : Result E (Unit {0})) (c : StoreCommand) (sent : List StoreCommand)
    → length sent ≤ length (note r c sent)
length-note (ok v) c sent = omega arith
length-note (err e) c sent = omega arith

-- an attempt to send takes the next number, if it succeeds
after_send-Renumbers :
    (r : Result StoreError (Unit {0})) (old : Call) (c : StoreCommand) (sent : List StoreCommand)
    → Renumbers (length sent) (length (note r c sent)) old (after_send r c (length sent))
after_send-Renumbers (ok v) old c sent n e = inr (cc, omega arith)
after_send-Renumbers (err e) old c sent n f = cc

module _ (m : Mpsc StoreCommand) (x : Crates) where
  -- the numbers of a system's calls
  abbrev IsNumbered : System x m → Type 0
  IsNumbered s = Numbered (length s.sent) s.calls

  ThreadStep-IsNumbered : {s t : System x m} → ThreadStep x m s t → IsNumbered s → IsNumbered t
  ThreadStep-IsNumbered (take_command c h e) k = k
  ThreadStep-IsNumbered (drop_state h) k = k
  ThreadStep-IsNumbered (drop_flags h) k = k
  ThreadStep-IsNumbered (close_queue h) k = k

  -- a call whose change sends nothing
  changed :
      (s : System x m) (i : ℕ) (new : Call)
      → ((n : ℕ) → number_of new ≡ some n → number_of (s.calls i) ≡ some n)
      → IsNumbered s
      → Numbered (length s.sent) (update s.calls i new)
  changed s i new kept k =
      update-Numbered (length s.sent) (length s.sent) s.calls i new (omega arith)
        (λ n e. inl (kept n e)) k

  OtherStep-IsNumbered :
      {P : StoreCommand → Type 0} {s t : System x m}
      → OtherStep x m P s t
      → IsNumbered s
      → IsNumbered t
  OtherStep-IsNumbered {s = s} (read_flags i c h) k = changed s i _ (λ n e. cc) k
  OtherStep-IsNumbered {s = s} (try i c seen u other h) k =
      let tried = (send m.try_send seen c s.queue).0 in
      update-Numbered _ _ s.calls i _ (length-note tried c s.sent)
        (after_send-Renumbers tried (s.calls i) c s.sent) k
  OtherStep-IsNumbered {s = s} (call_again i h) k = changed s i _ (λ n e. cc) k
  OtherStep-IsNumbered {s = s} (get_answer i n c done a h e given) k =
      changed s i _ (λ j f. rw h f) k
  OtherStep-IsNumbered {s = s} (lose_answer i n c h e g) k = changed s i _ (λ n e. cc) k
  OtherStep-IsNumbered (begin_shutdown h) k = k
  OtherStep-IsNumbered {s = s} (send_shutdown h room) k =
      Numbered-mono _ _ s.calls (length-note (m.try_send shutdown s.queue).0 shutdown s.sent) k
  OtherStep-IsNumbered (join h e) k = k

  pub Reach-Numbered :
      (P : StoreCommand → Type 0) (core : StoreCore x.db) (s : System x m)
      → Reach x m P core s
      → IsNumbered s
  Reach-Numbered P core s start = record { below = λ i n e. cc; apart = λ i j n e f. cc }
  Reach-Numbered P core s (thread_step reached step) =
      ThreadStep-IsNumbered step (Reach-Numbered P core _ reached)
  Reach-Numbered P core s (other_step reached step) =
      OtherStep-IsNumbered step (Reach-Numbered P core _ reached)
