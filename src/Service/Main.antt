-- ===== src/Service/Main.antt =====
-- `main` of src/main.rs: what it waits for, what it returns, and that it shuts the store down.
use aperip_nomos.Prelude.{◌⊎◌, ◌≡◌, refl, ◌↔◌, inl, inr, Bool, true, false, if◌then◌else◌}
use aperip_nomos.Prelude.Result.{Result, Result-cases, ok, err}
use aperip_nomos.Service.{
  IoError, IoResult, First, public_server, admin_server, shutdown, coordinate_servers,
}
use aperip_nomos.Service.Drain.{AllDone, coordinate_servers_iff}

-- What a watcher of a `watch` channel sees: a value each time it is woken, then that the sender is
-- dropped, or nothing more so far.
pub data Watched : Type 0 where
  value : Bool → Watched → Watched
  dropped waiting : Watched

-- `wait_until_unavailable` of a handle: whether it has returned
unfoldable pub wait_until_unavailable : Watched → Bool
wait_until_unavailable (value live rest) =
    let more = wait_until_unavailable rest in if live then more else true
wait_until_unavailable dropped = true
wait_until_unavailable waiting = false

-- `wait_for_shutdown` of a listener: whether it has returned
unfoldable pub wait_for_shutdown : Watched → Bool
wait_for_shutdown (value stop rest) =
    let more = wait_for_shutdown rest in if stop then true else more
wait_for_shutdown dropped = true
wait_for_shutdown waiting = false

-- the branch of `shutdown_signal` that is first
pub data Stop : Type 0 where
  operating_system actor_unavailable watchdog_failed : Stop

-- `shutdown_signal`: whether it marks the actor as failed
unfoldable pub shutdown_signal : Stop → Bool
shutdown_signal operating_system = false
shutdown_signal actor_unavailable = true
shutdown_signal watchdog_failed = true

-- The flag `actor_failed` after `serve_until`; a server that ends first leaves the signal unread.
unfoldable pub actor_failed : First → Stop → Bool
actor_failed (public_server result peer) stop = false
actor_failed (admin_server result peer) stop = false
actor_failed (shutdown results) stop = shutdown_signal stop

-- the errors of the configuration, of sockets and servers, of the store's start, and of its end
pub data MainError (C S : Type 0) : Type 0 where
  config_error : C → MainError C S
  io_error : IoError → MainError C S
  start_error : S → MainError C S
  actor_stopped : MainError C S

-- the servers were stopped because the actor or the watchdog failed
abbrev pub IsDisturbed : First → Stop → Type 0
IsDisturbed (public_server result peer) stop = ⊥
IsDisturbed (admin_server result peer) stop = ⊥
IsDisturbed (shutdown results) stop = (stop ≡ actor_unavailable) ⊎ (stop ≡ watchdog_failed)

-- they were stopped by the operating system, or one of them ended first
abbrev pub IsUndisturbed : First → Stop → Type 0
IsUndisturbed (public_server result peer) stop = Unit
IsUndisturbed (admin_server result peer) stop = Unit
IsUndisturbed (shutdown results) stop = stop ≡ operating_system

actor_failed-cases :
    (first : First) (stop : Stop)
    → ((actor_failed first stop ≡ false) × IsUndisturbed first stop × (IsDisturbed first stop → ⊥))
      ⊎ ((actor_failed first stop ≡ true) × IsDisturbed first stop × (IsUndisturbed first stop → ⊥))
unfolding actor_failed shutdown_signal
actor_failed-cases (public_server result peer) stop = inl (refl, tt, λ h. h)
actor_failed-cases (admin_server result peer) stop = inl (refl, tt, λ h. h)
actor_failed-cases (shutdown results) operating_system =
    inl (refl, refl, λ h. elim h [ inl e ↦ cc | inr e ↦ cc ])
actor_failed-cases (shutdown results) actor_unavailable = inr (refl, inl refl, λ h. cc)
actor_failed-cases (shutdown results) watchdog_failed = inr (refl, inr refl, λ h. cc)

module _ {C S : Type 0} where
  -- `main` after the store was shut down
  unfoldable pub finish : First → Stop → Result (MainError C S) (Unit {0})
  finish first stop = elim (coordinate_servers first) [
    | err e ↦ err (io_error e)
    | ok v ↦ if actor_failed first stop then err actor_stopped else ok tt
  ]

  -- `main`, with whether it has shut the store down
  unfoldable pub run_main :
      Result C (Unit {0})
      → IoResult
      → IoResult
      → Result S (Unit {0})
      → First
      → Stop
      → Result (MainError C S) (Unit {0}) × Bool
  run_main (err e) public admin spawned first stop = (err (config_error e), false)
  run_main (ok v) (err e) admin spawned first stop = (err (io_error e), false)
  run_main (ok v) (ok w) (err e) spawned first stop = (err (io_error e), false)
  run_main (ok v) (ok w) (ok z) (err e) first stop = (err (start_error e), false)
  run_main (ok v) (ok w) (ok z) (ok u) first stop = (finish first stop, true)

  finish_iff :
      (first : First) (stop : Stop)
      → ((finish first stop ≡ ok tt) ↔ (AllDone first × IsUndisturbed first stop))
        × ((finish first stop ≡ err actor_stopped) ↔ (AllDone first × IsDisturbed first stop))
  unfolding finish
  finish_iff first stop = elim (Result-cases (coordinate_servers first)) [
    | inr (e, failed) ↦
        let never : AllDone first → ⊥ = λ h. let k = (coordinate_servers_iff first).1 h in cc in
        rw (failed, finish)
          ((λ h. cc, λ h. absurd (never (h.0))), (λ h. cc, λ h. absurd (never (h.0))))
    | inl (v, done) ↦
        let well = (coordinate_servers_iff first).0 (let k : v ≡ tt = refl in cc) in
        elim (actor_failed-cases first stop) [
          | inl (kept, calm, apart) ↦
              rw (done, finish, kept)
                ((λ h. (well, calm), λ h. refl), (λ h. cc, λ h. absurd (apart (h.1))))
          | inr (lost, hit, apart) ↦
              rw (done, finish, lost)
                ((λ h. cc, λ h. absurd (apart (h.1))), (λ h. (well, hit), λ h. refl))
        ]
  ]

  -- the configuration, both listeners and the store are in order
  abbrev pub HasStarted : Result C (Unit {0}) → IoResult → IoResult → Result S (Unit {0}) → Type 0
  HasStarted config public admin spawned =
      (config ≡ ok tt) × (public ≡ ok tt) × (admin ≡ ok tt) × (spawned ≡ ok tt)

  -- The program ends well exactly when its configuration is valid, both listeners are bound, the store
  -- starts, both servers end well in time, and they were stopped by the operating system or because one
  -- of them ended. It reports that the actor has stopped exactly when all this is so but that the actor
  -- or the watchdog stopped the servers. And it shuts the store down exactly when it has started it,
  -- whatever the servers report.
  pub run_main_iff :
      (config : Result C (Unit {0})) (public admin : IoResult) (spawned : Result S (Unit {0}))
      (first : First) (stop : Stop)
      → (((run_main config public admin spawned first stop).0 ≡ ok tt)
          ↔ (HasStarted config public admin spawned × AllDone first × IsUndisturbed first stop))
        × (((run_main config public admin spawned first stop).0 ≡ err actor_stopped)
            ↔ (HasStarted config public admin spawned × AllDone first × IsDisturbed first stop))
        × (((run_main config public admin spawned first stop).1 ≡ true)
            ↔ HasStarted config public admin spawned)
  unfolding run_main
  run_main_iff (err e) public admin spawned first stop =
      ((λ h. cc, λ h. cc (h.0.0)), (λ h. cc, λ h. cc (h.0.0)), (λ h. cc, λ h. cc (h.0)))
  run_main_iff (ok v) (err e) admin spawned first stop =
      ((λ h. cc, λ h. cc (h.0.1)), (λ h. cc, λ h. cc (h.0.1)), (λ h. cc, λ h. cc (h.1)))
  run_main_iff (ok v) (ok w) (err e) spawned first stop =
      ((λ h. cc, λ h. cc (h.0.2)), (λ h. cc, λ h. cc (h.0.2)), (λ h. cc, λ h. cc (h.2)))
  run_main_iff (ok v) (ok w) (ok z) (err e) first stop =
      ((λ h. cc, λ h. cc (h.0.3)), (λ h. cc, λ h. cc (h.0.3)), (λ h. cc, λ h. cc (h.3)))
  run_main_iff (ok v) (ok w) (ok z) (ok u) first stop =
      let k = finish_iff first stop in
      let here : HasStarted (ok v) (ok w) (ok z) (ok u) = (refl, refl, refl, refl) in
      (
        (λ h. let both = k.0.0 h in (here, both.0, both.1), λ h. k.0.1 (h.1, h.2)),
        (λ h. let both = k.1.0 h in (here, both.0, both.1), λ h. k.1.1 (h.1, h.2)),
        (λ h. here, λ h. refl),
      )
