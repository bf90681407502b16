-- ===== src/Store/Delete/Reconcile.antt =====
-- How `delete` of src/store.rs ends: what a deletion leaves behind, the table without the slug, and the
-- recovery after a write that failed.
use aperip_nomos.Prelude.{
  ◌≡◌, ap, ◌∙◌, ◌⊎◌, inl, inr, true, false, List, [], Option, some, none, arith, if◌then◌else◌,
}
use aperip_nomos.Prelude.Int.{ℤ, pos, ◌≤ℤ◌}
use aperip_nomos.Prelude.Result.{Result, ok, err}
use aperip_nomos.Prelude.Exec.{pure, ◌>>◌, proceed-ok, proceed-err}
use aperip_nomos.Text.{Text, text_eq}
use aperip_nomos.Text.Equality.{text_eq_refl}
use aperip_nomos.Domain.{LicenseDocument}
use aperip_nomos.Sql.Reading.{Row}
use aperip_nomos.Map.{Map, lookup, contains_key, remove}
use aperip_nomos.Map.Laws.{lookup-remove}
use aperip_nomos.Database.{Crates, RnmdbLaws, delete_rows}
use aperip_nomos.Store.State.{StoreError, not_found, storage_unavailable, DatabaseState, StoreCore}
use aperip_nomos.Store.Load.{load_rows, load_from}
use aperip_nomos.Store.Load.Delete.{SameBut, load_from-delete_rows}
use aperip_nomos.Store.Core.{find, is_gone, recover_after_delete_error, recover}
use aperip_nomos.Store.Coherent.{Loads, Coherent, find-Loads}
use aperip_nomos.Store.Reopen.{recover-Recovered}
use aperip_nomos.Store.Create.Reconcile.{answer}

-- Why a deletion is refused: no license is found under a slug where readers find none, and otherwise
-- the storage is not available.
abbrev pub RefusesDelete : Option LicenseDocument → StoreError → Type 0
RefusesDelete none e = e ≡ not_found
RefusesDelete (some d) e = e ≡ storage_unavailable

pub kept-RefusesDelete :
    (o : Option LicenseDocument) (d : LicenseDocument) (e : StoreError)
    → o ≡ some d
    → e ≡ storage_unavailable
    → RefusesDelete o e
kept-RefusesDelete none d e h k = cc
kept-RefusesDelete (some d') d e h k = k

module _ (x : Crates) (laws : RnmdbLaws x.db) where
  open x use {db}
  open laws use {table, pending}

  -- A table without the rows of a slug loads to the map without that slug.
  pub delete_rows-Loads :
      (t : List Row) (m : Map LicenseDocument) (n : ℤ) (slug : Text)
      → Loads x laws t m n
      → Loads x laws (delete_rows slug t) (remove slug m) n
  delete_rows-Loads t m n slug l = record {
    loaded = less.0;
    bound = less.1;
    loads = unfold load_rows in less.2;
    same = λ j. rw (lookup-remove slug j m, less.3 j, l.same j);
    fits = omega (arith, l.fits, less.4);
  }
    where
      less :
          (m₂ : Map LicenseDocument) × (n₂ : ℤ) × (load_from x [] (pos 1) (delete_rows slug t)
            ≡ ok (m₂, n₂))
          × SameBut slug m₂ l.loaded
          × (n₂ ≤ℤ l.bound)
      less =
          load_from-delete_rows x slug t [] [] (pos 1) (pos 1) l.loaded l.bound
            (unfold load_rows in l.loads) (λ j. unfold lookup in ground arith) (omega arith)

  -- What a deletion leaves behind, where `before` is what readers saw: on success the slug was there
  -- and is gone; on failure they see what they saw, unless the state is gone and the actor stops.
  pub record Deleted (before : Text → Option LicenseDocument) (slug : Text)
      (r : Result StoreError LicenseDocument × StoreCore db) : Type 0 where
    pub coherent : Coherent x laws r.1
    pub success :
        (d : LicenseDocument)
        → r.0 ≡ ok d
        → (before slug ≡ some d)
          × ((j : Text) → find x r.1.state j ≡ (if text_eq slug j then none else before j))
    pub reason : (e : StoreError) → r.0 ≡ err e → RefusesDelete (before slug) e
    pub failure :
        (e : StoreError)
        → r.0 ≡ err e
        → ((j : Text) → find x r.1.state j ≡ before j)
          ⊎ ((r.1.state ≡ none) × (r.1.shared.alive ≡ false))

  gone_of_find :
      (o : Option (DatabaseState db)) (state : DatabaseState db) (slug : Text)
      → o ≡ some state
      → (found : Option LicenseDocument) → find x o slug ≡ found
      → is_gone x o slug ≡ elim found [ none ↦ true | some d ↦ false ]
  unfolding is_gone find contains_key
  gone_of_find o state slug e none h = ground arith
  gone_of_find o state slug e (some d) h = ground arith

  module _ (core : StoreCore db) (state : DatabaseState db) (slug : Text)
      (document : LicenseDocument) (t after : List Row) where
    -- the answer after a recovery, from the documents that it found
    settle-Deleted :
        (core' : StoreCore db) (state' : DatabaseState db)
        → core'.state ≡ some state'
        → Coherent x laws core'
        → lookup slug state.licenses ≡ some document
        → Loads x laws t state.licenses state.next_id
        → Loads x laws after (remove slug state.licenses) state.next_id
        → (table core'.world ≡ t) ⊎ (table core'.world ≡ after)
        → Deleted
            (λ j. lookup j state.licenses)
            slug
            (if is_gone x core'.state slug then ok document else err storage_unavailable, core')
    settle-Deleted core' state' e coherent here old new (inl same) =
        rw (gone_of_find core'.state state' slug e (some document) (view slug ∙ here)) (record {
          coherent = coherent;
          success = λ d h. cc;
          reason = λ f h. kept-RefusesDelete (lookup slug state.licenses) document f here (cc);
          failure = λ f h. inl view;
        })
      where
        view : (j : Text) → find x core'.state j ≡ lookup j state.licenses
        view j = find-Loads x laws core' state' t state.licenses state.next_id j e coherent same old
    settle-Deleted core' state' e coherent here old new (inr same) =
        rw
          (gone_of_find core'.state state' slug e none (
            view slug
            ∙ ap (λ b. if b then none else lookup slug state.licenses) (text_eq_refl slug)))
          (record {
            coherent = coherent;
            success = λ d h. let made : document ≡ d = cc in rw (← made) (here, view);
            reason = λ f h. cc;
            failure = λ f h. cc;
          })
      where
        view :
            (j : Text)
            → find x core'.state j ≡ (if text_eq slug j then none else lookup j state.licenses)
        view j =
            find-Loads x laws core' state' after (remove slug state.licenses) state.next_id j e
              coherent same new
            ∙ lookup-remove slug j state.licenses

    -- recovery after a write that failed, with or without effect
    pub reconcile-Deleted :
        core.state ≡ some state
        → lookup slug state.licenses ≡ some document
        → Loads x laws t state.licenses state.next_id
        → Loads x laws after (remove slug state.licenses) state.next_id
        → (table core.world ≡ t) ⊎ (table core.world ≡ after)
        → Deleted
            (λ j. lookup j state.licenses)
            slug
            ((recover_after_delete_error x slug >> pure document) core)
    unfolding recover_after_delete_error
    reconcile-Deleted h here old new either =
        let r = recover-Recovered x laws core state h in
        elim r.outcome [
          | inr (failed, ready, alive, gone) ↦ rw (proceed-err (recover x core) _ failed) (record {
            coherent = r.coherent;
            success = λ d k. cc;
            reason = λ f h. kept-RefusesDelete (lookup slug state.licenses) document f here (cc);
            failure = λ f k. inr (gone, alive);
          })
          | inl (done, ready, alive, (state', e)) ↦
              rw
                (
                  proceed-ok (recover x core) _ done,
                  answer _ storage_unavailable document (recover x core).1,
                )
                (settle-Deleted (recover x core).1 state' e r.coherent here old new
                  (rw r.kept either))
        ]
