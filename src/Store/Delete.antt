-- ===== src/Store/Delete.antt =====
-- `delete` of src/store.rs: it succeeds exactly when the slug is gone from the committed table, and a
-- failure changes nothing that a reader sees.
pub mod Reconcile
use Reconcile.{Deleted, delete_rows-Loads, reconcile-Deleted}
use aperip_nomos.Prelude.{
  ◌≡◌, refl, sym, fun_ext, ap, ◌∙◌, ◌⊎◌, inl, inr, Bool, true, false, List, [], Option, some, none,
  arith, Option-cases, if◌then◌else◌,
}
use aperip_nomos.Prelude.Int.{ℤ, pos, ◌≤ℤ◌}
use aperip_nomos.Prelude.Result.{Result, Result-cases, ok, err}
use aperip_nomos.Prelude.Exec.{pure, ◌>>◌, proceed-ok, proceed-err}
use aperip_nomos.Text.{Text, text_eq}
use aperip_nomos.Text.Equality.{text_eq_refl}
use aperip_nomos.Domain.{LicenseDocument}
use aperip_nomos.Sql.{delete_statement}
use aperip_nomos.Sql.Reading.{Row}
use aperip_nomos.Sql.Statement.{read_delete-delete_statement}
use aperip_nomos.Map.{Map, lookup, contains_key, remove}
use aperip_nomos.Map.Laws.{lookup-remove, contains_key-eq-false, remove-IsOrdered}
use aperip_nomos.Database.{Crates, RnmdbLaws, delete_rows}
use aperip_nomos.Storage.{StorageError}
use aperip_nomos.Store.State.{StoreError, not_found, storage_unavailable, DatabaseState, StoreCore}
use aperip_nomos.Store.Load.{load_rows, load_from}
use aperip_nomos.Store.Load.Delete.{SameBut, load_from-delete_rows}
use aperip_nomos.Store.Core.{
  find, persist_delete, transaction, remove_document, is_gone, recover_after_delete_error, recover,
  delete_in, delete,
}
use aperip_nomos.Store.Coherent.{Loads, IsOpen, IsOpen-of_some, Coherent, find_of_some, find-Loads}
use aperip_nomos.Store.Transaction.{Turns, Transacted, transaction-Transacted}
use aperip_nomos.Store.Reopen.{Recovered, recover-Recovered}
use aperip_nomos.Store.Create.Reconcile.{answer}

module _ (x : Crates) (laws : RnmdbLaws x.db) where
  open x use {db}
  open laws use {table, pending}

  -- `delete` once the slug is found
  remove_document-Deleted :
      (core : StoreCore db) (state : DatabaseState db) (slug : Text) (document : LicenseDocument)
      → core.state ≡ some state
      → IsOpen x laws state core.world
      → lookup slug state.licenses ≡ some document
      → Deleted x laws
          (λ j. lookup j state.licenses)
          slug
          (remove_document x state slug document core)
  unfolding remove_document persist_delete
  remove_document-Deleted core state slug document h o here =
      elim (Result-cases (transaction x state.session (delete_statement slug) core.world).0) [
        | inl (v, written) ↦
            let committed = done.done written in
            let open_ : IsOpen x laws (record state { licenses = remove slug state.licenses })
                world =
              record {
                closed = committed.1;
                mirror = rw committed.0 mirror;
                ordered = remove-IsOrdered slug state.licenses o.ordered;
                positive = o.positive;
              } in
            rw (written, remove_document, here)
              (unfold find in
                record {
                  coherent = open_;
                  success = λ d k.
                      let made : document ≡ d = cc in
                      rw (← made) (here, λ j. lookup-remove slug j state.licenses);
                  reason = λ f k. cc;
                  failure = λ f k. cc;
                })
        | inr (f, failed) ↦
            rw (failed, remove_document)
              (reconcile-Deleted x laws (record core { world = world }) state slug document t after
                h here o.mirror mirror done.either)
      ]
    where
      t : List Row
      t = table core.world

      after : List Row
      after = delete_rows slug t

      world : db.World
      world = (transaction x state.session (delete_statement slug) core.world).1

      mirror : Loads x laws after (remove slug state.licenses) state.next_id
      mirror = delete_rows-Loads x laws t state.licenses state.next_id slug o.mirror

      turns : Turns x laws state.session (delete_statement slug) t after
      turns w p =
          laws.delete state.session w (delete_statement slug) slug t
            (read_delete-delete_statement slug) p

      done :
          Transacted x laws state.session
            (delete_statement slug)
            core.world
            after
            o.closed
            turns
            (transaction x state.session (delete_statement slug) core.world)
      done =
          transaction-Transacted x laws state.session (delete_statement slug) core.world after
            o.closed turns

  refused-Deleted :
      (core : StoreCore db) (slug : Text)
      → Coherent x laws core
      → find x core.state slug ≡ none
      → Deleted x laws (find x core.state) slug (err not_found, core)
  refused-Deleted core slug c absent = record {
    coherent = c;
    success = λ d k. cc;
    reason = λ f k. rw absent (cc);
    failure = λ f k. inl (λ j. refl);
  }

  delete_in-Deleted :
      (core : StoreCore db) (o : Option (DatabaseState db)) (slug : Text)
      → core.state ≡ o
      → Coherent x laws core
      → Deleted x laws (find x core.state) slug (delete_in x o slug core)
  unfolding delete_in
  delete_in-Deleted core none slug h c = refused-Deleted core slug c (unfold find in rw h refl)
  delete_in-Deleted core (some state) slug h c = elim (Option-cases (lookup slug state.licenses)) [
    | inl absent ↦
        rw (absent, delete_in)
          (refused-Deleted core slug c (find_of_some x laws core.state state slug h ∙ absent))
    | inr (document, here) ↦
        let seen : find x core.state ≡ (λ j. lookup j state.licenses) =
          fun_ext (λ j. find_of_some x laws core.state state j h) in
        let o = IsOpen-of_some x laws core.state core.world state h c in
        rw (here, delete_in, seen) (remove_document-Deleted core state slug document h o here)
  ]

  -- On a coherent core, `delete` keeps the core coherent with the committed table. If it succeeds, it
  -- returns the document that readers saw under the slug, they see none there any more, and every
  -- other slug as before. If it fails, a slug under which readers saw none is not found, and for any
  -- other the storage is unavailable; readers see what they saw before, unless the database could not
  -- be opened again: then the state is gone and the actor is marked as dead.
  pub delete-Deleted :
      (core : StoreCore db) (slug : Text)
      → Coherent x laws core
      → Deleted x laws (find x core.state) slug (delete x slug core)
  unfolding delete
  delete-Deleted core slug c = delete_in-Deleted core core.state slug refl c
