-- ===== src/Service/Listeners.antt =====
-- `serve_until` and `coordinate_servers` of src/server.rs as steps of the two servers, the channel that
-- tells them to stop, and the coordinator. The coordinator polls a server only while it waits for it;
-- axum's server drains once its `wait_for_shutdown` has returned, and may end at any time.
pub mod Outcome
use aperip_nomos.Prelude.{ℕ, suc, ◌≡◌, Bool, true, false, Option, none, some}
use aperip_nomos.Prelude.Result.{err}
use aperip_nomos.Service.{IoResult, timed_out, combine_results, drain_peer}
use aperip_nomos.Service.Main.{value, waiting as nothing_more, wait_for_shutdown}

pub data Server : Type 0 where
  serving draining : Server
  ended : IoResult → Server

-- where the coordinator waits: for whatever is first, for the peer of a server that ended with a
-- result, or for both; then it has returned
pub data Phase : Type 0 where
  waiting : Phase
  after_public after_admin : IoResult → Phase
  after_signal : Phase
  returned : IoResult → Phase

pub record Running : Type 0 where
  pub stop : Bool
  pub public : Server
  pub admin : Server
  pub phase : Phase

-- `serve_until` before its first poll
abbrev pub begin : Running
begin = record { stop = false; public = serving; admin = serving; phase = waiting }

abbrev pub polls_public : Phase → Bool
polls_public waiting = true
polls_public (after_public r) = false
polls_public (after_admin r) = true
polls_public after_signal = true
polls_public (returned r) = false

abbrev pub polls_admin : Phase → Bool
polls_admin waiting = true
polls_admin (after_public r) = true
polls_admin (after_admin r) = false
polls_admin after_signal = true
polls_admin (returned r) = false

abbrev pub is_live : Server → Bool
is_live serving = true
is_live draining = true
is_live (ended r) = false

-- a server that has ended with a result, or that the deadline has met
abbrev pub Ended : Option IoResult → Server → Type 0
Ended none server = Unit {0}
Ended (some r) server = server ≡ ended r

-- the receiver of a server has seen the value of the channel
abbrev pub has_seen : Bool → Bool
has_seen stop = wait_for_shutdown (value stop nothing_more)

pub data Step (s : Running) : Running → Type 0 where
  public_drains :
      polls_public s.phase ≡ true
      → s.public ≡ serving
      → has_seen s.stop ≡ true
      → Step s (record s { public = draining })
  admin_drains :
      polls_admin s.phase ≡ true
      → s.admin ≡ serving
      → has_seen s.stop ≡ true
      → Step s (record s { admin = draining })
  public_ends :
      (r : IoResult)
      → polls_public s.phase ≡ true
      → is_live s.public ≡ true
      → Step s (record s { public = ended r })
  admin_ends :
      (r : IoResult)
      → polls_admin s.phase ≡ true
      → is_live s.admin ≡ true
      → Step s (record s { admin = ended r })
  -- the three branches of the choice, each with `signal_shutdown`
  takes_public :
      (r : IoResult)
      → s.phase ≡ waiting
      → s.public ≡ ended r
      → Step s (record s { stop = true; phase = after_public r })
  takes_admin :
      (r : IoResult)
      → s.phase ≡ waiting
      → s.admin ≡ ended r
      → Step s (record s { stop = true; phase = after_admin r })
  takes_signal : s.phase ≡ waiting → Step s (record s { stop = true; phase = after_signal })
  -- the ends of `drain_peer` and of the wait for both
  joins_admin :
      (r : IoResult) (peer : Option IoResult)
      → s.phase ≡ after_public r
      → Ended peer s.admin
      → Step s (record s { phase = returned (combine_results r (drain_peer peer)) })
  joins_public :
      (r : IoResult) (peer : Option IoResult)
      → s.phase ≡ after_admin r
      → Ended peer s.public
      → Step s (record s { phase = returned (combine_results r (drain_peer peer)) })
  joins_both :
      (r q : IoResult)
      → s.phase ≡ after_signal
      → s.public ≡ ended r
      → s.admin ≡ ended q
      → Step s (record s { phase = returned (combine_results r q) })
  gives_up : s.phase ≡ after_signal → Step s (record s { phase = returned (err timed_out) })

-- the states that `n` steps lead to
pub data Run : ℕ → Running → Type 0 where
  start : Run 0 begin
  next : {n : ℕ} {s t : Running} → Run n s → Step s t → Run (suc n) t
