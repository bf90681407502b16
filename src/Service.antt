-- ===== src/Service.antt =====
-- src/main.rs and src/server.rs: the watchdog over the store, and the end of the two listeners. The
-- clock and the HTTP servers are crates: what they report is an argument.
pub mod Watchdog
pub mod Drain
pub mod Main
pub mod Listeners
pub mod Token
pub mod Startup
use aperip_nomos.Prelude.{
  ℕ, suc, ◌+◌, Bool, true, false, List, [], ◌∷◌, Option, none, some, ltb, leb, if◌then◌else◌,
}
use aperip_nomos.Prelude.Result.{Result, ok, err}

abbrev pub max_consecutive_ping_failures : ℕ
max_consecutive_ping_failures = 3

-- `u8::saturating_add(1)`
unfoldable pub saturating_next : ℕ → ℕ
saturating_next n = if ltb n 255 then n + 1 else 255

-- `record_ping_result`, with the failures that it leaves
unfoldable pub record_ping_result : ℕ → Bool → Bool × ℕ
record_ping_result failures true = (false, 0)
record_ping_result failures false =
    (leb max_consecutive_ping_failures (saturating_next failures), saturating_next failures)

-- `store_watchdog` over the pings so far: whether it has returned
unfoldable pub watchdog : ℕ → List Bool → Bool
watchdog failures [] = false
watchdog failures (healthy ∷ rest) =
    let more = watchdog (record_ping_result failures healthy).1 rest in
    if (record_ping_result failures healthy).0 then true else more

-- `std::io::Error`: the deadline's, or another
pub data IoError : Type 0 where
  timed_out : IoError
  other : ℕ → IoError

abbrev pub IoResult : Type 0
IoResult = Result IoError (Unit {0})

unfoldable pub combine_results : IoResult → IoResult → IoResult
combine_results (err error) peer = err error
combine_results (ok done) peer = peer

-- `drain_peer`: `none` is the deadline
unfoldable pub drain_peer : Option IoResult → IoResult
drain_peer none = err timed_out
drain_peer (some result) = result

-- What `coordinate_servers` waits for first, and what comes after: a server that ends, then its peer,
-- or the signal, then both servers.
pub data First : Type 0 where
  public_server admin_server : IoResult → Option IoResult → First
  shutdown : Option (IoResult × IoResult) → First

unfoldable pub coordinate_servers : First → IoResult
unfolding combine_results drain_peer
coordinate_servers (public_server result peer) = combine_results result (drain_peer peer)
coordinate_servers (admin_server result peer) = combine_results result (drain_peer peer)
coordinate_servers (shutdown none) = err timed_out
coordinate_servers (shutdown (some (public_result, admin_result))) =
    combine_results public_result admin_result
