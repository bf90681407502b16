-- ===== src/Actor/Stepped.antt =====
-- Each command that the actor of src/store.rs executes is answered as its clients are promised.
use aperip_nomos.Prelude.{
  ◌≡◌, refl, sym, ◌⊎◌, inl, inr, true, false, List, [], ◌∷◌, Option, none, some,
}
use aperip_nomos.Prelude.Result.{Result, ok, err}
use aperip_nomos.Text.{Text}
use aperip_nomos.Domain.{LicenseDraft, LicenseDocument}
use aperip_nomos.Database.{Crates, RnmdbLaws}
use aperip_nomos.Store.State.{
  StoreCommand, create, list, get, delete, ping, StoreError, DatabaseState, StoreCore,
}
use aperip_nomos.Store.Load.Rows.{FromUpload}
use aperip_nomos.Store.Core.{
  create as create_license, delete as delete_license, get as get_license, list as list_licenses,
  find,
}
use aperip_nomos.Store.Coherent.{Coherent, IsOpen-of_some, find_of_some}
use aperip_nomos.Store.Listing.{list-IsListed}
use aperip_nomos.Store.Create.Reconcile.{Created}
use aperip_nomos.Store.Create.{create-Created}
use aperip_nomos.Store.Delete.Reconcile.{Deleted}
use aperip_nomos.Store.Delete.{delete-Deleted}
use aperip_nomos.Actor.{Answer, created, deleted, listed, Executed, execute}
use aperip_nomos.Actor.Spec.{
  View, Allowed, create_ok, create_err, list_ok, get_any, delete_ok, delete_err, ping_ok, Lost,
  lost_create, lost_delete,
}
use aperip_nomos.Actor.Lives.{is_open, Lives, create_in-Lives, delete_in-Lives}

module _ (x : Crates) (laws : RnmdbLaws x.db) where
  open x use {db}

  -- A command that is no shutdown is answered as the map allows, or is lost with the state.
  pub record Stepped (core : StoreCore db) (c : StoreCommand) (done : Executed x) : Type 0 where
    pub coherent : Coherent x laws done.core
    pub running : done.stop ≡ false
    pub outcome :
        (Allowed (find x core.state) (find x done.core.state) c done.answers
          × (done.core.shared.alive ≡ true)
          × (is_open x core.state ≡ true → is_open x done.core.state ≡ true))
        ⊎ (Lost c done.answers × (done.core.shared.alive ≡ false))

  created-outcome :
      (o : Option (DatabaseState db)) (v : View) (draft : LicenseDraft)
      (r : Result StoreError LicenseDocument) (end : StoreCore db)
      → Created x laws v draft (r, end)
      → Lives x o (r, end)
      → (Allowed v (find x end.state) (create draft) (created r ∷ [])
          × (end.shared.alive ≡ true)
          × (is_open x o ≡ true → is_open x end.state ≡ true))
        ⊎ (Lost (create draft) (created r ∷ []) × (end.shared.alive ≡ false))
  created-outcome o v draft (ok d) end k (inl (alive, open_)) =
      inl (let made = k.success d refl in create_ok draft d made.0 made.1 made.2, alive, open_)
  created-outcome o v draft (ok d) end k (inr (dead, gone, (e, failed))) = absurd (cc)
  created-outcome o v draft (err e) end k (inl (alive, open_)) = elim (k.failure e refl) [
    | inl same ↦ inl (create_err draft e (k.reason e refl) same, alive, open_)
    | inr (gone, dead) ↦ absurd (cc)
  ]
  created-outcome o v draft (err e) end k (inr (dead, gone, found)) =
      inr (lost_create draft e, dead)

  deleted-outcome :
      (o : Option (DatabaseState db)) (v : View) (slug : Text)
      (r : Result StoreError LicenseDocument) (end : StoreCore db)
      → Deleted x laws v slug (r, end)
      → Lives x o (r, end)
      → (Allowed v (find x end.state) (delete slug) (deleted r ∷ [])
          × (end.shared.alive ≡ true)
          × (is_open x o ≡ true → is_open x end.state ≡ true))
        ⊎ (Lost (delete slug) (deleted r ∷ []) × (end.shared.alive ≡ false))
  deleted-outcome o v slug (ok d) end k (inl (alive, open_)) =
      inl (delete_ok slug d (k.success d refl).0 (k.success d refl).1, alive, open_)
  deleted-outcome o v slug (ok d) end k (inr (dead, gone, (e, failed))) = absurd (cc)
  deleted-outcome o v slug (err e) end k (inl (alive, open_)) = elim (k.failure e refl) [
    | inl same ↦ inl (delete_err slug e (k.reason e refl) same, alive, open_)
    | inr (gone, dead) ↦ absurd (cc)
  ]
  deleted-outcome o v slug (err e) end k (inr (dead, gone, found)) = inr (lost_delete slug e, dead)

  pub create-Stepped :
      (core : StoreCore db) (draft : LicenseDraft)
      → Coherent x laws core
      → core.shared.alive ≡ true
      → FromUpload x draft
      → Stepped core (create draft) (execute x (create draft) core)
  unfolding execute
  create-Stepped core draft h alive u =
      let done = create-Created x laws core draft h u in
      let lives : Lives x core.state (create_license x draft core) =
        unfold create_license in create_in-Lives x core.state draft core alive refl in
      record {
        coherent = done.coherent;
        running = refl;
        outcome =
            created-outcome core.state (find x core.state) draft (create_license x draft core).0
              (create_license x draft core).1 done lives;
      }

  pub delete-Stepped :
      (core : StoreCore db) (slug : Text)
      → Coherent x laws core
      → core.shared.alive ≡ true
      → Stepped core (delete slug) (execute x (delete slug) core)
  unfolding execute
  delete-Stepped core slug h alive =
      let done = delete-Deleted x laws core slug h in
      let lives : Lives x core.state (delete_license x slug core) =
        unfold delete_license in delete_in-Lives x core.state slug core alive refl in
      record {
        coherent = done.coherent;
        running = refl;
        outcome =
            deleted-outcome core.state (find x core.state) slug (delete_license x slug core).0
              (delete_license x slug core).1 done lives;
      }

  read-Stepped :
      (core : StoreCore db) (c : StoreCommand) (a : List Answer)
      → Coherent x laws core
      → core.shared.alive ≡ true
      → Allowed (find x core.state) (find x core.state) c a
      → Stepped core c (record { stop = false; answers = a; core = core })
  read-Stepped core c a h alive allowed = record {
    coherent = h;
    running = refl;
    outcome = inl (allowed, alive, λ k. k);
  }

  -- the answer to a list command, over a state that is open
  list-Allowed :
      (o : Option (DatabaseState db)) (core : StoreCore db)
      → core.state ≡ o
      → is_open x o ≡ true
      → Coherent x laws core
      → Allowed (find x core.state) (find x core.state) list (listed (list_licenses x core) ∷ [])
  list-Allowed none core e open_ h = cc
  list-Allowed (some state) core e open_ h =
      let kept = IsOpen-of_some x laws core.state core.world state e h in
      let (l, answered, sorted, perm) = list-IsListed x core state e in
      rw answered (
        list_ok state.licenses l
          (kept.ordered, λ slug. sym (find_of_some x laws core.state state slug e)) perm sorted
          λ slug. refl)

  pub list-Stepped :
      (core : StoreCore db)
      → Coherent x laws core
      → core.shared.alive ≡ true
      → is_open x core.state ≡ true
      → Stepped core list (execute x list core)
  unfolding execute
  list-Stepped core h alive open_ =
      read-Stepped core list _ h alive (list-Allowed core.state core refl open_ h)

  pub get-Stepped :
      (core : StoreCore db) (slug : Text)
      → Coherent x laws core
      → core.shared.alive ≡ true
      → Stepped core (get slug) (execute x (get slug) core)
  unfolding execute get_license
  get-Stepped core slug h alive = read-Stepped core (get slug) _ h alive (get_any slug λ j. refl)

  pub ping-Stepped :
      (core : StoreCore db)
      → Coherent x laws core
      → core.shared.alive ≡ true
      → Stepped core ping (execute x ping core)
  unfolding execute
  ping-Stepped core h alive = read-Stepped core ping _ h alive (ping_ok λ slug. refl)
