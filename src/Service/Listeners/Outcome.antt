-- ===== src/Service/Listeners/Outcome.antt =====
-- What the coordinator of src/server.rs returns.
use aperip_nomos.Prelude.{ℕ, ◌≡◌, refl, sym, ◌∙◌, Bool, true, false, none, some}
use aperip_nomos.Prelude.Result.{ok}
use aperip_nomos.Service.{First, public_server, admin_server, shutdown, coordinate_servers}
use aperip_nomos.Service.Drain.{AllDone, coordinate_servers_iff}
use aperip_nomos.Service.Main.{wait_for_shutdown}
use aperip_nomos.Service.Listeners.{
  Server, serving, draining, ended, Phase, waiting, after_public, after_admin, after_signal,
  returned, Running, polls_public, polls_admin, Ended, has_seen, Step, public_drains, admin_drains,
  public_ends, admin_ends, takes_public, takes_admin, takes_signal, joins_admin, joins_public,
  joins_both, gives_up, Run, start, next,
}

-- the coordinator has told the servers to stop
abbrev pub has_left : Phase → Bool
has_left waiting = false
has_left _ = true

-- a server that drains was told to
abbrev pub IsTold : Server → Bool → Type 0
IsTold draining stop = stop ≡ true
IsTold _ stop = Unit {0}

-- the results in a description of the run are those of the servers
abbrev pub Tells : First → Server → Server → Type 0
Tells (public_server r peer) public admin = (public ≡ ended r) × Ended peer admin
Tells (admin_server r peer) public admin = (admin ≡ ended r) × Ended peer public
Tells (shutdown none) public admin = Unit {0}
Tells (shutdown (some (r, q))) public admin = (public ≡ ended r) × (admin ≡ ended q)

abbrev pub Explained : Phase → Running → Type 0
Explained waiting s = Unit {0}
Explained (after_public r) s = s.public ≡ ended r
Explained (after_admin r) s = s.admin ≡ ended r
Explained after_signal s = Unit {0}
Explained (returned result) s =
    (first : First) × (coordinate_servers first ≡ result) × Tells first s.public s.admin

pub record IsCoordinated (s : Running) : Type 0 where
  pub told : s.stop ≡ has_left s.phase
  pub public_told : IsTold s.public s.stop
  pub admin_told : IsTold s.admin s.stop
  pub explained : Explained s.phase s

-- the servers of a description in which both ended well
both_done :
    (first : First) (public admin : Server)
    → AllDone first
    → Tells first public admin
    → (public ≡ ended (ok tt)) × (admin ≡ ended (ok tt))
both_done (public_server r none) public admin (well, peer) (own, other) = cc
both_done (public_server r (some q)) public admin (well, peer) (own, other) =
    let same : q ≡ ok tt = cc in (cc, rw same at other)
both_done (admin_server r none) public admin (well, peer) (own, other) = cc
both_done (admin_server r (some q)) public admin (well, peer) (own, other) =
    let same : q ≡ ok tt = cc in (rw same at other, cc)
both_done (shutdown none) public admin well tells = absurd well
both_done (shutdown (some (r, q))) public admin (well, peer) (own, other) = (cc, cc)

seen_is : (stop : Bool) → has_seen stop ≡ true → stop ≡ true
unfolding wait_for_shutdown
seen_is true h = refl
seen_is false h = cc

drains_after : (server : Server) (stop : Bool) → IsTold server stop → IsTold server true
drains_after serving stop h = tt
drains_after draining stop h = refl
drains_after (ended r) stop h = tt

-- a server that is still polled is not yet in the account
public-Explained :
    (s : Running) (phase : Phase) (server : Server)
    → polls_public phase ≡ true
    → Explained phase s
    → Explained phase (record s { public = server })
public-Explained s waiting server polled h = tt
public-Explained s (after_public r) server polled h = cc
public-Explained s (after_admin r) server polled h = h
public-Explained s after_signal server polled h = tt
public-Explained s (returned r) server polled h = cc

admin-Explained :
    (s : Running) (phase : Phase) (server : Server)
    → polls_admin phase ≡ true
    → Explained phase s
    → Explained phase (record s { admin = server })
admin-Explained s waiting server polled h = tt
admin-Explained s (after_public r) server polled h = h
admin-Explained s (after_admin r) server polled h = cc
admin-Explained s after_signal server polled h = tt
admin-Explained s (returned r) server polled h = cc

-- the choice of a branch
left-IsCoordinated :
    (s : Running) (phase : Phase)
    → has_left phase ≡ true
    → Explained phase (record s { stop = true; phase = phase })
    → IsCoordinated s
    → IsCoordinated (record s { stop = true; phase = phase })
left-IsCoordinated s phase left explained i = record {
  told = sym left;
  public_told = drains_after s.public s.stop i.public_told;
  admin_told = drains_after s.admin s.stop i.admin_told;
  explained = explained;
}

-- the return of a result that a description of the run has
returned-IsCoordinated :
    (s : Running) (first : First)
    → has_left s.phase ≡ true
    → Tells first s.public s.admin
    → IsCoordinated s
    → IsCoordinated (record s { phase = returned (coordinate_servers first) })
returned-IsCoordinated s first left tells i = record {
  told = i.told ∙ left;
  public_told = i.public_told;
  admin_told = i.admin_told;
  explained = (first, refl, tells);
}

Step-IsCoordinated : (s t : Running) → Step s t → IsCoordinated s → IsCoordinated t
unfolding coordinate_servers
Step-IsCoordinated s _ (public_drains polled serves seen) i = record {
  told = i.told;
  public_told = seen_is s.stop seen;
  admin_told = i.admin_told;
  explained = public-Explained s s.phase draining polled i.explained;
}
Step-IsCoordinated s _ (admin_drains polled serves seen) i = record {
  told = i.told;
  public_told = i.public_told;
  admin_told = seen_is s.stop seen;
  explained = admin-Explained s s.phase draining polled i.explained;
}
Step-IsCoordinated s _ (public_ends r polled live) i = record {
  told = i.told;
  public_told = tt;
  admin_told = i.admin_told;
  explained = public-Explained s s.phase (ended r) polled i.explained;
}
Step-IsCoordinated s _ (admin_ends r polled live) i = record {
  told = i.told;
  public_told = i.public_told;
  admin_told = tt;
  explained = admin-Explained s s.phase (ended r) polled i.explained;
}
Step-IsCoordinated s _ (takes_public r here done) i =
    left-IsCoordinated s (after_public r) refl done i
Step-IsCoordinated s _ (takes_admin r here done) i =
    left-IsCoordinated s (after_admin r) refl done i
Step-IsCoordinated s _ (takes_signal here) i = left-IsCoordinated s after_signal refl tt i
Step-IsCoordinated s _ (joins_admin r peer here done) i =
    returned-IsCoordinated s (public_server r peer) (rw here refl) (rw here at i.explained, done) i
Step-IsCoordinated s _ (joins_public r peer here done) i =
    returned-IsCoordinated s (admin_server r peer) (rw here refl) (rw here at i.explained, done) i
Step-IsCoordinated s _ (joins_both r q here done peer) i =
    returned-IsCoordinated s (shutdown (some (r, q))) (rw here refl) (done, peer) i
Step-IsCoordinated s _ (gives_up here) i =
    returned-IsCoordinated s (shutdown none) (rw here refl) tt i

pub Run-IsCoordinated : (n : ℕ) (s : Running) → Run n s → IsCoordinated s
Run-IsCoordinated _ _ start = record {
  told = refl;
  public_told = tt;
  admin_told = tt;
  explained = tt;
}
Run-IsCoordinated _ t (next {s = s} run step) =
    Step-IsCoordinated s t step (Run-IsCoordinated _ s run)

returned_well :
    (s : Running) (phase : Phase)
    → s.phase ≡ phase
    → phase ≡ returned (ok tt)
    → Explained phase s
    → (s.public ≡ ended (ok tt)) × (s.admin ≡ ended (ok tt))
returned_well s waiting here e k = cc
returned_well s (after_public r) here e k = cc
returned_well s (after_admin r) here e k = cc
returned_well s after_signal here e k = cc
returned_well s (returned r) here e (first, given, tells) =
    let done : coordinate_servers first ≡ ok tt = cc in
    both_done first s.public s.admin ((coordinate_servers_iff first).0 done) tells

-- If the coordinator returns success, both servers were told to stop, and both have ended, with
-- success: it is never returned for a server that failed, or that still runs after the deadline.
pub Run-returned_well :
    (n : ℕ) (s : Running)
    → Run n s
    → s.phase ≡ returned (ok tt)
    → (s.stop ≡ true) × (s.public ≡ ended (ok tt)) × (s.admin ≡ ended (ok tt))
Run-returned_well n s run e =
    let i = Run-IsCoordinated n s run in
    let (public, admin) = returned_well s s.phase refl e i.explained in
    (rw e at i.told, public, admin)
