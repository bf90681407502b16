-- ===== src/Actor/Channel.antt =====
-- `tokio::sync::mpsc`, the bounded channel between the handles of src/store.rs and their actor. The
-- crate is a parameter, and the laws are its documentation.
use aperip_nomos.Prelude.{
  ℕ, ◌<◌, ◌≡◌, Bool, true, false, List, [], ◌∷◌, ◌++◌, Option, none, some, length,
}
use aperip_nomos.Prelude.Result.{Result, ok, err}
use aperip_nomos.Actor.{TrySendError, closed}

-- `channel`, `Sender::try_send`, `Receiver::blocking_recv` where it need not wait, and the drop of the
-- receiver
pub record Mpsc (A : Type 0) : Type 1 where
  pub Queue : Type 0
  pub channel : ℕ → Queue
  pub try_send : A → Queue → Result TrySendError (Unit {0}) × Queue
  pub recv : Queue → Option A × Queue
  pub drop_receiver : Queue → Queue

pub record MpscLaws {A : Type 0} (m : Mpsc A) : Type 0 where
  pub contents : m.Queue → List A
  pub is_closed : m.Queue → Bool
  pub capacity : m.Queue → ℕ
  pub channel_lem :
      (n : ℕ)
      → (contents (m.channel n) ≡ [])
        × (is_closed (m.channel n) ≡ false)
        × (capacity (m.channel n) ≡ n)
  -- a value that is accepted stands last
  pub try_send_ok :
      (a : A) (q : m.Queue)
      → (m.try_send a q).0 ≡ ok tt
      → (contents (m.try_send a q).1 ≡ contents q ++ (a ∷ []))
        × (is_closed (m.try_send a q).1 ≡ is_closed q)
        × (capacity (m.try_send a q).1 ≡ capacity q)
        × (length (contents q) < capacity q)
  pub try_send_err :
      (a : A) (q : m.Queue) (e : TrySendError) → (m.try_send a q).0 ≡ err e → (m.try_send a q).1 ≡ q
  pub try_send_closed : (a : A) (q : m.Queue) → is_closed q ≡ true → (m.try_send a q).0 ≡ err closed
  pub closed_lem : (a : A) (q : m.Queue) → (m.try_send a q).0 ≡ err closed → is_closed q ≡ true
  -- values are received in the order in which they were sent
  pub recv_some :
      (a : A) (q : m.Queue)
      → (m.recv q).0 ≡ some a
      → (contents q ≡ a ∷ contents (m.recv q).1)
        × (is_closed (m.recv q).1 ≡ is_closed q)
        × (capacity (m.recv q).1 ≡ capacity q)
  pub recv_none : (q : m.Queue) → (m.recv q).0 ≡ none → contents q ≡ []
  pub drop_receiver_lem :
      (q : m.Queue)
      → (contents (m.drop_receiver q) ≡ [])
        × (is_closed (m.drop_receiver q) ≡ true)
        × (capacity (m.drop_receiver q) ≡ capacity q)
