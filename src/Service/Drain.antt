-- ===== src/Service/Drain.antt =====
-- `coordinate_servers` of src/server.rs loses no error and no deadline.
use aperip_nomos.Prelude.{◌≡◌, refl, ◌↔◌, Option, none, some}
use aperip_nomos.Prelude.Result.{ok, err}
use aperip_nomos.Service.{
  First, timed_out, public_server, admin_server, shutdown, IoResult, combine_results, drain_peer,
  coordinate_servers,
}

-- both servers ended well, and in time
abbrev pub AllDone : First → Type 0
AllDone (public_server result peer) = (result ≡ ok tt) × (peer ≡ some (ok tt))
AllDone (admin_server result peer) = (result ≡ ok tt) × (peer ≡ some (ok tt))
AllDone (shutdown none) = ⊥
AllDone (shutdown (some (a, b))) = (a ≡ ok tt) × (b ≡ ok tt)

combine_iff : (a b : IoResult) → (combine_results a b ≡ ok tt) ↔ ((a ≡ ok tt) × (b ≡ ok tt))
unfolding combine_results
combine_iff (ok a) b = (λ h. (refl, h), λ h. h.1)
combine_iff (err e) b = (λ h. cc, λ h. cc (h.0))

peer_iff :
    (a : IoResult) (peer : Option IoResult)
    → (combine_results a (drain_peer peer) ≡ ok tt) ↔ ((a ≡ ok tt) × (peer ≡ some (ok tt)))
unfolding drain_peer
peer_iff a none = (λ h. let k = (combine_iff a (err timed_out)).0 h in cc (k.1), λ h. cc (h.1))
peer_iff a (some r) = (
  λ h. let k = (combine_iff a r).0 h in (k.0, cc (k.1)),
  λ h. let k : r ≡ ok tt = cc (h.1) in (combine_iff a r).1 (h.0, k),
)

-- The service ends well exactly when both servers ended well within the deadline, whichever ended
-- first and whether or not a signal came before.
pub coordinate_servers_iff : (first : First) → (coordinate_servers first ≡ ok tt) ↔ AllDone first
unfolding coordinate_servers
coordinate_servers_iff (public_server result peer) = peer_iff result peer
coordinate_servers_iff (admin_server result peer) = peer_iff result peer
coordinate_servers_iff (shutdown none) = (λ h. cc, λ h. absurd h)
coordinate_servers_iff (shutdown (some (a, b))) = combine_iff a b
