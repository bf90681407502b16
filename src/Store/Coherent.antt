-- ===== src/Store/Coherent.antt =====
-- The invariant of `StoreCore` in src/store.rs: what it holds in memory is what the committed table
-- would load to, and no transaction is open.
use aperip_nomos.Prelude.{◌≡◌, sym, ap, ◌∙◌, List, Option, none, some}
use aperip_nomos.Prelude.Int.{ℤ, pos, ◌≤ℤ◌}
use aperip_nomos.Prelude.Result.{ok}
use aperip_nomos.Text.{Text}
use aperip_nomos.Domain.{LicenseDocument}
use aperip_nomos.Sql.Reading.{Row}
use aperip_nomos.Map.{Map, lookup}
use aperip_nomos.Map.Laws.{IsOrdered}
use aperip_nomos.Database.{Crates, RnmdbLaws}
use aperip_nomos.Store.State.{DatabaseState, StoreCore}
use aperip_nomos.Store.Load.{load_rows}
use aperip_nomos.Store.Core.{find}

module _ (x : Crates) (laws : RnmdbLaws x.db) where
  -- the table loads to the documents of the map, and to a next id that is not above `n`
  pub record Loads (t : List Row) (m : Map LicenseDocument) (n : ℤ) : Type 0 where
    pub loaded : Map LicenseDocument
    pub bound : ℤ
    pub loads : load_rows x t ≡ ok (loaded, bound)
    pub same : (slug : Text) → lookup slug m ≡ lookup slug loaded
    pub fits : bound ≤ℤ n

  pub record IsOpen (state : DatabaseState x.db) (w : x.db.World) : Type 0 where
    pub closed : laws.pending w ≡ none
    pub mirror : Loads (laws.table w) state.licenses state.next_id
    pub ordered : IsOrdered state.licenses
    pub positive : pos 1 ≤ℤ state.next_id

  -- An open state mirrors the table; a core without one keeps no promise about it.
  abbrev pub StateCoherent : Option (DatabaseState x.db) → x.db.World → Type 0
  StateCoherent none w = Unit
  StateCoherent (some state) w = IsOpen state w

  abbrev pub Coherent : StoreCore x.db → Type 0
  Coherent core = StateCoherent core.state core.world

  pub IsOpen-of_some :
      (o : Option (DatabaseState x.db)) (w : x.db.World) (state : DatabaseState x.db)
      → o ≡ some state
      → StateCoherent o w
      → IsOpen state w
  IsOpen-of_some none w state e h = cc
  IsOpen-of_some (some s) w state e h = let same : s ≡ state = cc in rw (← same) h

  pub find_of_some :
      (o : Option (DatabaseState x.db)) (state : DatabaseState x.db) (slug : Text)
      → o ≡ some state
      → find x o slug ≡ lookup slug state.licenses
  unfolding find
  find_of_some o state slug e = rw e

  -- one table has one content
  pub Loads-unique :
      (t t' : List Row) (m m' : Map LicenseDocument) (n n' : ℤ) (slug : Text)
      → t ≡ t'
      → Loads t m n
      → Loads t' m' n'
      → lookup slug m ≡ lookup slug m'
  Loads-unique t t' m m' n n' slug e l l' =
      let same : l.loaded ≡ l'.loaded = cc (l.loads, l'.loads, e) in
      l.same slug ∙ ap (lookup slug) same ∙ sym (l'.same slug)

  -- what readers see of a core whose table is known to load
  pub find-Loads :
      (core : StoreCore x.db) (state : DatabaseState x.db) (t : List Row) (m : Map LicenseDocument)
      (n : ℤ) (slug : Text)
      → core.state ≡ some state
      → Coherent core
      → laws.table core.world ≡ t
      → Loads t m n
      → find x core.state slug ≡ lookup slug m
  find-Loads core state t m n slug e h same l =
      let open_ = IsOpen-of_some core.state core.world state e h in
      find_of_some core.state state slug e
      ∙ Loads-unique (laws.table core.world) t state.licenses m state.next_id n slug same
          open_.mirror l
