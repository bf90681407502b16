-- ===== src/Store/Create.antt =====
-- `create` of src/store.rs: it succeeds exactly when the document is in the committed table, and a
-- failure changes nothing that a reader sees.
pub mod Reconcile
use Reconcile.{RefusesCreate, Created, insert_row-Loads, reconcile-Created}
use aperip_nomos.Prelude.{
  ◌≡◌, refl, sym, fun_ext, ap, ◌∙◌, ◌⊎◌, ◌↔◌, inl, inr, Bool, true, false, List, [], ◌∷◌, ◌++◌,
  Option, some, none, arith, Option-cases, Bool-cases, if◌then◌else◌,
}
use aperip_nomos.Prelude.Int.{ℤ, pos, ◌≤ℤ◌, ◌<ℤ◌, checked_add_one, checked_add_one-lt, max_ℤ}
use aperip_nomos.Prelude.Result.{Result, Result-cases, ok, err}
use aperip_nomos.Prelude.Exec.{pure, ◌>>◌, proceed, proceed-ok, proceed-err}
use aperip_nomos.Text.{Text, text_eq}
use aperip_nomos.Text.Equality.{text_eq_iff, text_eq_refl}
use aperip_nomos.Domain.{LicenseDraft, LicenseDocument, into_document}
use aperip_nomos.Sql.Reading.{Row, read_insert}
use aperip_nomos.Sql.Statement.{read_insert-insert_text}
use aperip_nomos.Map.{Map, lookup, contains_key, insert}
use aperip_nomos.Map.Laws.{
  lookup-insert, contains_key-eq-false, contains_key-some, insert-IsOrdered,
}
use aperip_nomos.Database.{Crates, RnmdbLaws, insert_row, row_id}
use aperip_nomos.Storage.{StorageError}
use aperip_nomos.Store.State.{
  StoreError, duplicate_slug, storage_unavailable, DatabaseState, StoreCore,
}
use aperip_nomos.Store.Load.{load_rows, load_from, load_row}
use aperip_nomos.Store.Load.Rows.{FromUpload, row_of, decode_document-row_of}
use aperip_nomos.Store.Load.Append.{
  AllBelow, insert_row_last, load_from-append, load_from-AllBelow, AllBelow-mono,
}
use aperip_nomos.Store.Load.Delete.{load_row_new}
use aperip_nomos.Store.Core.{
  document_eq, find, insert_statement, persist_create, transaction, write_document, is_durable,
  recover_after_create_error, recover, create_in, create,
}
use aperip_nomos.Store.Coherent.{Loads, IsOpen, IsOpen-of_some, Coherent, find_of_some, find-Loads}
use aperip_nomos.Store.Transaction.{Turns, Transacted, transaction-Transacted}
use aperip_nomos.Store.Reopen.{Recovered, recover-Recovered}

module _ (x : Crates) (laws : RnmdbLaws x.db) where
  open x use {db}
  open laws use {table, pending}

  -- `create` once the state is open, the slug is free and the next id is in range
  write_document-Created :
      (core : StoreCore db) (state : DatabaseState db) (draft : LicenseDraft) (next : ℤ)
      → core.state ≡ some state
      → IsOpen x laws state core.world
      → FromUpload x draft
      → checked_add_one state.next_id ≡ some next
      → lookup draft.slug state.licenses ≡ none
      → Created x laws
          (λ slug. lookup slug state.licenses)
          draft
          (write_document x state (into_document draft state.next_id) next core)
  unfolding write_document persist_create
  write_document-Created core state draft next h o u e absent =
      elim (Result-cases (transaction x state.session statement core.world).0) [
        | inl (v, written) ↦
            let committed = done.done written in
            let open_ : IsOpen x laws
                (record state {
                  licenses = insert draft.slug document state.licenses;
                  next_id = next;
                })
                world =
              record {
                closed = committed.1;
                mirror = rw committed.0 mirror;
                ordered = insert-IsOrdered draft.slug document state.licenses o.ordered;
                positive = ground (arith, o.positive, checked_add_one-lt state.next_id next e);
              } in
            rw (written, write_document)
              (unfold into_document find in
                record {
                  coherent = open_;
                  success = λ d k.
                      let made : document ≡ d = cc in
                      rw (← made) (
                        absent,
                        refl,
                        λ slug. lookup-insert draft.slug slug document state.licenses,
                      );
                  reason = λ f k. cc;
                  failure = λ f k. cc;
                })
        | inr (f, failed) ↦
            rw (failed, write_document)
              (reconcile-Created x laws (record core { world = world }) state draft next t after h
                absent o.mirror mirror done.either)
      ]
    where
      document : LicenseDocument
      document = into_document draft state.next_id

      statement : Text
      statement = insert_statement x document

      t : List Row
      t = table core.world

      after : List Row
      after = insert_row (row_of x document) t

      world : db.World
      world = (transaction x state.session statement core.world).1

      mirror : Loads x laws after (insert draft.slug document state.licenses) next
      mirror =
          insert_row-Loads x laws t state.licenses state.next_id next draft o.mirror u o.positive e
            absent

      turns : Turns x laws state.session statement t after
      turns w p =
          laws.insert state.session w statement (row_of x document) t
            (unfold insert_statement in read_insert-insert_text _ _ _ _ _ _ _) p

      done :
          Transacted x laws state.session statement core.world after o.closed turns
            (transaction x state.session statement core.world)
      done = transaction-Transacted x laws state.session statement core.world after o.closed turns

  -- The rest of `create` changes nothing: no state, a slug that is taken, no id left.
  refused-Created :
      (core : StoreCore db) (draft : LicenseDraft) (e : StoreError)
      → Coherent x laws core
      → RefusesCreate (find x core.state draft.slug) e
      → Created x laws (find x core.state) draft (err e, core)
  refused-Created core draft e c why = record {
    coherent = c;
    success = λ d k. cc;
    reason = λ f k. let same : e ≡ f = cc in rw (← same) why;
    failure = λ f k. inl (λ slug. refl);
  }

  create_in-Created :
      (core : StoreCore db) (o : Option (DatabaseState db)) (draft : LicenseDraft)
      → core.state ≡ o
      → Coherent x laws core
      → FromUpload x draft
      → Created x laws (find x core.state) draft (create_in x o draft core)
  unfolding create_in
  create_in-Created core none draft h c u =
      refused-Created core draft storage_unavailable c (unfold find in rw h refl)
  create_in-Created core (some state) draft h c u =
      elim (Bool-cases (contains_key draft.slug state.licenses)) [
        | inl taken ↦
            let (d, there) = contains_key-some draft.slug state.licenses taken in
            let found : find x core.state draft.slug ≡ some d =
              find_of_some x laws core.state state draft.slug h ∙ there in
            rw (taken, create_in) (refused-Created core draft duplicate_slug c (rw found refl))
        | inr free ↦ elim (Option-cases (checked_add_one state.next_id)) [
          | inl last ↦
              let absent = (contains_key-eq-false draft.slug state.licenses).0 free in
              let unfound = find_of_some x laws core.state state draft.slug h ∙ absent in
              rw (free, last, create_in)
                (refused-Created core draft storage_unavailable c (rw unfound refl))
          | inr (next, e) ↦
              let seen : find x core.state ≡ (λ slug. lookup slug state.licenses) =
                fun_ext (λ slug. find_of_some x laws core.state state slug h) in
              let absent = (contains_key-eq-false draft.slug state.licenses).0 free in
              let o = IsOpen-of_some x laws core.state core.world state h c in
              rw (free, e, create_in, seen)
                (write_document-Created core state draft next h o u e absent)
        ]
      ]

  -- On a coherent core, `create` of an accepted draft keeps the core coherent with the committed
  -- table. If it succeeds, the slug was free, readers see the document of the draft under it, and every
  -- other slug as before. If it fails, a slug that readers found is a duplicate, and for any other
  -- the storage is unavailable; readers see what they saw before, unless the database could not be
  -- opened again: then the state is gone and the actor is marked as dead.
  pub create-Created :
      (core : StoreCore db) (draft : LicenseDraft)
      → Coherent x laws core
      → FromUpload x draft
      → Created x laws (find x core.state) draft (create x draft core)
  create-Created core draft c u = unfold create in create_in-Created core core.state draft refl c u
