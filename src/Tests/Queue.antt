-- ===== src/Tests/Queue.antt =====
-- A queue that is a list, for the channel of the actor.
use aperip_nomos.Prelude.{
  ℕ, ◌<◌, ◌≡◌, refl, inl, inr, Bool, true, false, List, [], ◌∷◌, ◌++◌, Option, none, some, length,
  ltb, ltb→lt, if◌then◌else◌, Bool-cases,
}
use aperip_nomos.Prelude.Result.{Result, ok, err}
use aperip_nomos.Store.State.{StoreCommand}
use aperip_nomos.Actor.{TrySendError, full, closed}
use aperip_nomos.Actor.Channel.{Mpsc, MpscLaws}

pub record ListQueue : Type 0 where
  pub size : ℕ
  pub shut : Bool
  pub values : List StoreCommand

abbrev pub push : StoreCommand → ListQueue → Result TrySendError (Unit {0}) × ListQueue
push a q =
    if q.shut
    then (err closed, q)
    else if ltb (length q.values) q.size
    then (ok tt, record q { values = q.values ++ (a ∷ []) })
    else (err full, q)

abbrev pub pop_from : List StoreCommand → ListQueue → Option StoreCommand × ListQueue
pop_from [] q = (none, q)
pop_from (a ∷ rest) q = (some a, record q { values = rest })

abbrev pub list_queue : Mpsc StoreCommand
list_queue = record {
  Queue = ListQueue;
  channel = λ n. record { size = n; shut = false; values = [] };
  try_send = push;
  recv = λ q. pop_from q.values q;
  drop_receiver = λ q. record q { shut = true; values = [] };
}

pub push_ok :
    (a : StoreCommand) (q : ListQueue)
    → (push a q).0 ≡ ok tt
    → ((push a q).1.values ≡ q.values ++ (a ∷ []))
      × ((push a q).1.shut ≡ q.shut)
      × ((push a q).1.size ≡ q.size)
      × (length q.values < q.size)
push_ok a q e = elim (Bool-cases q.shut) [
  | inl over ↦ let k = rw over at e in cc
  | inr open_ ↦ elim (Bool-cases (ltb (length q.values) q.size)) [
    | inl room ↦ rw (open_, room) (refl, refl, refl, ltb→lt (length q.values) q.size room)
    | inr none_left ↦ let k = rw (open_, none_left) at e in cc
  ]
]

pub push_err :
    (a : StoreCommand) (q : ListQueue) (f : TrySendError)
    → (push a q).0 ≡ err f
    → ((push a q).1 ≡ q) × (f ≡ closed → q.shut ≡ true)
push_err a q f e = elim (Bool-cases q.shut) [
  | inl over ↦ rw over (refl, λ k. refl)
  | inr open_ ↦ elim (Bool-cases (ltb (length q.values) q.size)) [
    | inl room ↦ let k = rw (open_, room) at e in cc
    | inr none_left ↦ let k = rw (open_, none_left) at e in rw (open_, none_left) (refl, λ k. cc)
  ]
]

pub pop_from_lem :
    (l : List StoreCommand) (a : StoreCommand) (q : ListQueue)
    → (pop_from l q).0 ≡ some a
    → (l ≡ a ∷ (pop_from l q).1.values)
      × ((pop_from l q).1.shut ≡ q.shut)
      × ((pop_from l q).1.size ≡ q.size)
pop_from_lem [] a q e = cc
pop_from_lem (b ∷ rest) a q e = (cc, refl, refl)

pub pop_none : (l : List StoreCommand) (q : ListQueue) → (pop_from l q).0 ≡ none → l ≡ []
pop_none [] q e = refl
pop_none (b ∷ rest) q e = cc

abbrev pub list_queue_laws : MpscLaws list_queue
list_queue_laws = record {
  contents = λ q. q.values;
  is_closed = λ q. q.shut;
  capacity = λ q. q.size;
  channel_lem = λ n. (refl, refl, refl);
  try_send_ok = push_ok;
  try_send_err = λ a q f e. (push_err a q f e).0;
  try_send_closed = λ a q e. rw e refl;
  closed_lem = λ a q e. (push_err a q closed e).1 refl;
  recv_some = λ a q e. pop_from_lem q.values a q e;
  recv_none = λ q e. pop_none q.values q e;
  drop_receiver_lem = λ q. (refl, refl, refl);
}
