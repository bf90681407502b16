-- ===== src/Tests/Service.antt =====
-- The watchdog and the listeners at small inputs.
use aperip_nomos.Service.Listeners.{
  Running, ended, serving, returned, Run, start, next, takes_signal, public_drains, public_ends,
  admin_drains, admin_ends, joins_both,
}
use aperip_nomos.Service.Listeners.Outcome.{Run-returned_well}
use aperip_nomos.Prelude.{◌≡◌, refl, ◌↔◌, Bool, true, false, List, [], ◌∷◌, some}
use aperip_nomos.Prelude.Result.{Result, ok, err}
use aperip_nomos.Service.{watchdog, coordinate_servers, IoResult, timed_out, First, shutdown}
use aperip_nomos.Service.Watchdog.{has_failed_thrice, watchdog-has_failed_thrice}
use aperip_nomos.Service.Drain.{AllDone}
use aperip_nomos.Service.Main.{
  operating_system, IsDisturbed, IsUndisturbed, actor_stopped, wait_for_shutdown, run_main,
  HasStarted, run_main_iff,
}

abbrev pings : List Bool
pings = false ∷ false ∷ true ∷ false ∷ false ∷ false ∷ []

watchdog-has_failed_thrice_example : watchdog 0 pings ≡ has_failed_thrice pings
watchdog-has_failed_thrice_example = watchdog-has_failed_thrice pings

abbrev all_well : First
all_well = shutdown (some (ok tt, ok tt))

abbrev well : IoResult
well = ok tt

abbrev loaded : Result (Unit {0}) (Unit {0})
loaded = ok tt

run_main_iff_example :
    (((run_main loaded well well loaded all_well operating_system).0 ≡ ok tt) ↔ (
      HasStarted loaded well well loaded
      × AllDone all_well
      × IsUndisturbed all_well operating_system))
    × (((run_main loaded well well loaded all_well operating_system).0 ≡ err actor_stopped) ↔ (
        HasStarted loaded well well loaded
        × AllDone all_well
        × IsDisturbed all_well operating_system))
    × (((run_main loaded well well loaded all_well operating_system).1 ≡ true)
        ↔ HasStarted loaded well well loaded)
run_main_iff_example = run_main_iff loaded well well loaded all_well operating_system

-- a signal, then a server that drains and ends, and the deadline of the other
abbrev late : Running
late = record {
  stop = true;
  public = ended (ok tt);
  admin = serving;
  phase = returned (err timed_out);
}

-- the same signal, when both servers drain and end in time
abbrev in_time : Running
in_time = record {
  stop = true;
  public = ended (ok tt);
  admin = ended (ok tt);
  phase = returned (ok tt);
}

in_time_run : Run 6 in_time
unfolding wait_for_shutdown coordinate_servers
in_time_run =
    next
      (next
        (next
          (next (next (next start (takes_signal refl)) (public_drains refl refl refl))
            (public_ends (ok tt) refl refl))
          (admin_drains refl refl refl))
        (admin_ends (ok tt) refl refl))
      (joins_both (ok tt) (ok tt) refl refl refl)

Run-returned_well_example :
    (in_time.stop ≡ true) × (in_time.public ≡ ended (ok tt)) × (in_time.admin ≡ ended (ok tt))
Run-returned_well_example = Run-returned_well 6 in_time in_time_run refl
