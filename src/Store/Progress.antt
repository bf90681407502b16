-- ===== src/Store/Progress.antt =====
-- `create` of src/store.rs succeeds when the database does: the counterpart of what it guarantees.
use aperip_nomos.Prelude.{◌≡◌, refl, ◌∙◌, Option, some, none, arith}
use aperip_nomos.Prelude.Int.{ℤ, checked_add_one}
use aperip_nomos.Prelude.Result.{ok}
use aperip_nomos.Text.{Text}
use aperip_nomos.Text.Equality.{text_eq_refl}
use aperip_nomos.Domain.{LicenseDraft, into_document}
use aperip_nomos.Map.{lookup}
use aperip_nomos.Map.Laws.{contains_key-eq-false}
use aperip_nomos.Database.{Crates, CommandOutput, RnmdbLaws, begin_sql, commit_sql}
use aperip_nomos.Storage.{execute}
use aperip_nomos.Store.State.{DatabaseState, StoreCore}
use aperip_nomos.Store.Load.Rows.{FromUpload}
use aperip_nomos.Store.Core.{
  get, insert_statement, persist_create, transaction, or_rollback, write_document, create_in,
  create,
}
use aperip_nomos.Store.Coherent.{Coherent}
use aperip_nomos.Store.Create.{create-Created}

module _ (x : Crates) where
  open x use {db}

  -- the three statements of the transaction that writes a document all report success
  pub record Works (s : db.Session) (statement : Text) (w : db.World) : Type 0 where
    pub begun : CommandOutput
    pub ran : CommandOutput
    pub committed : CommandOutput
    pub begin : (db.execute s begin_sql w).0 ≡ ok begun
    pub run : (db.execute s statement (db.execute s begin_sql w).1).0 ≡ ok ran
    pub commit :
        (db.execute s commit_sql (db.execute s statement (db.execute s begin_sql w).1).1).0
        ≡ ok committed

  transaction_done :
      (s : db.Session) (statement : Text) (w : db.World)
      → Works s statement w
      → (transaction x s statement w).0 ≡ ok tt
  unfolding transaction or_rollback execute
  transaction_done s statement w k = ground (arith, k.begin, k.run, k.commit)

  create_done :
      (core : StoreCore db) (state : DatabaseState db) (draft : LicenseDraft) (next : ℤ)
      → lookup draft.slug state.licenses ≡ none
      → checked_add_one state.next_id ≡ some next
      → Works state.session (insert_statement x (into_document draft state.next_id)) core.world
      → (create_in x (some state) draft core).0 ≡ ok (into_document draft state.next_id)
  unfolding create_in write_document persist_create
  create_done core state draft next absent e k =
      let free = (contains_key-eq-false draft.slug state.licenses).1 absent in
      let done = transaction_done state.session _ core.world k in
      rw (free, e, create_in, done, write_document) refl

  same_state :
      (core : StoreCore db) (o : Option (DatabaseState db)) (state : DatabaseState db)
      (draft : LicenseDraft)
      → o ≡ some state
      → (create_in x o draft core).0 ≡ (create_in x (some state) draft core).0
  same_state core o state draft e = rw e refl

  -- On a coherent core, if the slug of an accepted draft is free, an id is left, and the database
  -- reports success for each statement, then `create` returns the document of the draft with the next
  -- id, and `get` finds that document under its slug.
  pub create_progress :
      (laws : RnmdbLaws db) (core : StoreCore db) (state : DatabaseState db) (draft : LicenseDraft)
      (next : ℤ)
      → core.state ≡ some state
      → Coherent x laws core
      → FromUpload x draft
      → lookup draft.slug state.licenses ≡ none
      → checked_add_one state.next_id ≡ some next
      → Works state.session (insert_statement x (into_document draft state.next_id)) core.world
      → ((create x draft core).0 ≡ ok (into_document draft state.next_id))
        × (get x (create x draft core).1 draft.slug ≡ ok (into_document draft state.next_id))
  unfolding get
  create_progress laws core state draft next h c u absent e k =
      let made : (create x draft core).0 ≡ ok (into_document draft state.next_id) =
        unfold create in
        same_state core core.state state draft h ∙ create_done core state draft next absent e k in
      let seen =
        ((create-Created x laws core draft c u).success (into_document draft state.next_id) made).2
          draft.slug in
      (made, rw (seen, text_eq_refl draft.slug) refl)
