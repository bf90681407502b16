-- ===== src/Actor/Refinement.antt =====
-- The actor of src/store.rs refines the map that its clients are promised.
use aperip_nomos.Prelude.{
  ◌≡◌, refl, ◌⊎◌, inl, inr, true, List, [], ◌∷◌, Option, none, some, if◌then◌else◌,
}
use aperip_nomos.Database.{Crates, RnmdbLaws}
use aperip_nomos.Store.State.{StoreCommand, create, list, get, delete, ping, shutdown, StoreCore}
use aperip_nomos.Store.Load.Rows.{FromUpload}
use aperip_nomos.Store.Core.{find}
use aperip_nomos.Store.Coherent.{Coherent}
use aperip_nomos.Actor.{execute, serve}
use aperip_nomos.Actor.Spec.{View, Trace, ended, served, stopped, lost}
use aperip_nomos.Actor.Stepped.{
  Stepped, create-Stepped, delete-Stepped, list-Stepped, get-Stepped, ping-Stepped,
}
use aperip_nomos.Actor.Lives.{is_open}

module _ (x : Crates) (laws : RnmdbLaws x.db) where
  open x use {db}

  -- a draft that is to be created was accepted
  abbrev pub Uploaded : StoreCommand → Type 0
  Uploaded (create draft) = FromUpload x draft
  Uploaded list = Unit
  Uploaded (get slug) = Unit
  Uploaded (delete slug) = Unit
  Uploaded ping = Unit
  Uploaded shutdown = Unit

  abbrev pub AllUploaded : List StoreCommand → Type 0
  AllUploaded [] = Unit
  AllUploaded (c ∷ cs) = Uploaded c × AllUploaded cs

  -- what a core shows when its loop has ended
  abbrev pub end_view : StoreCore db → Option View
  end_view core = if core.shared.alive then some (find x core.state) else none

  -- the rest of a run, after a command that is no shutdown
  continue-Trace :
      (core : StoreCore db) (c : StoreCommand) (cs : List StoreCommand)
      → is_open x core.state ≡ true
      → Stepped x laws core c (execute x c core)
      → (Coherent x laws (execute x c core).core
          → (execute x c core).core.shared.alive ≡ true
          → is_open x (execute x c core).core.state ≡ true
          → Coherent x laws (serve x cs (execute x c core).core).1
            × Trace
                (find x (execute x c core).core.state)
                cs
                (serve x cs (execute x c core).core).0
                (end_view (serve x cs (execute x c core).core).1))
      → Coherent x laws (serve x (c ∷ cs) core).1
        × Trace
            (find x core.state)
            (c ∷ cs)
            (serve x (c ∷ cs) core).0
            (end_view (serve x (c ∷ cs) core).1)
  unfolding serve
  continue-Trace core c cs o s rest = elim s.outcome [
    | inl (allowed, alive, open_) ↦
        let more = rest s.coherent alive (open_ o) in
        rw (s.running, alive) (more.0, served _ _ c _ cs _ _ allowed more.1)
    | inr (loss, dead) ↦ rw (s.running, dead, dead) (s.coherent, lost _ c _ cs loss)
  ]

  pub execute-Stepped :
      (core : StoreCore db) (c : StoreCommand)
      → Coherent x laws core
      → core.shared.alive ≡ true
      → is_open x core.state ≡ true
      → Uploaded c
      → Stepped x laws core c (execute x c core) ⊎ (c ≡ shutdown)
  execute-Stepped core (create draft) h alive open_ u =
      inl (create-Stepped x laws core draft h alive u)
  execute-Stepped core (delete slug) h alive open_ u = inl (delete-Stepped x laws core slug h alive)
  execute-Stepped core list h alive open_ u = inl (list-Stepped x laws core h alive open_)
  execute-Stepped core (get slug) h alive open_ u = inl (get-Stepped x laws core slug h alive)
  execute-Stepped core ping h alive open_ u = inl (ping-Stepped x laws core h alive)
  execute-Stepped core shutdown h alive open_ u = inr refl

  -- On a coherent core that is open and whose actor is alive, the loop over any commands, whose drafts
  -- were accepted, ends in a coherent core, and its answers are a run of the map of documents: it starts
  -- in the view that readers have before, and ends in the view that they have after, or in none if the
  -- database could not be opened again. In such a run a creation succeeds only if the slug is free, a
  -- creation or deletion that is refused has the error that the view gives reason for, and the answer to a list command has the metadata of every document of the view, each once, in order.
  pub serve-Trace :
      (cs : List StoreCommand) (core : StoreCore db)
      → Coherent x laws core
      → core.shared.alive ≡ true
      → is_open x core.state ≡ true
      → AllUploaded cs
      → Coherent x laws (serve x cs core).1
        × Trace (find x core.state) cs (serve x cs core).0 (end_view (serve x cs core).1)
  serve-Trace [] core h alive o u = unfold serve in (h, rw alive (ended (find x core.state)))
  serve-Trace (create draft ∷ cs) core h alive o u =
      continue-Trace core (create draft) cs o (create-Stepped x laws core draft h alive u.0)
        λ h' alive' o'. serve-Trace cs (execute x (create draft) core).core h' alive' o' u.1
  serve-Trace (delete slug ∷ cs) core h alive o u =
      continue-Trace core (delete slug) cs o (delete-Stepped x laws core slug h alive)
        λ h' alive' o'. serve-Trace cs (execute x (delete slug) core).core h' alive' o' u.1
  serve-Trace (list ∷ cs) core h alive o u =
      continue-Trace core list cs o (list-Stepped x laws core h alive o)
        λ h' alive' o'. serve-Trace cs (execute x list core).core h' alive' o' u.1
  serve-Trace (get slug ∷ cs) core h alive o u =
      continue-Trace core (get slug) cs o (get-Stepped x laws core slug h alive)
        λ h' alive' o'. serve-Trace cs (execute x (get slug) core).core h' alive' o' u.1
  serve-Trace (ping ∷ cs) core h alive o u =
      continue-Trace core ping cs o (ping-Stepped x laws core h alive)
        λ h' alive' o'. serve-Trace cs (execute x ping core).core h' alive' o' u.1
  serve-Trace (shutdown ∷ cs) core h alive o u =
      unfold serve execute in (h, rw alive (stopped (find x core.state) cs))
