-- ===== src/Store/Create/Reconcile.antt =====
-- How `create` of src/store.rs ends: what a creation leaves behind, the table with the new row, and the
-- recovery after a write that failed.
use aperip_nomos.Prelude.{
  ◌≡◌, refl, sym, ◌∙◌, ◌⊎◌, inl, inr, Bool, true, false, List, [], ◌∷◌, ◌++◌, Option, some, none,
  arith, if◌then◌else◌,
}
use aperip_nomos.Prelude.Int.{ℤ, pos, ◌≤ℤ◌, checked_add_one, checked_add_one-lt, max_ℤ}
use aperip_nomos.Prelude.Result.{Result, ok, err}
use aperip_nomos.Prelude.Exec.{pure, ◌>>◌, proceed, proceed-ok, proceed-err}
use aperip_nomos.Text.{Text, text_eq}
use aperip_nomos.Text.Equality.{text_eq_refl}
use aperip_nomos.Domain.{LicenseDraft, LicenseDocument, into_document}
use aperip_nomos.Sql.Reading.{Row}
use aperip_nomos.Map.{Map, lookup, insert}
use aperip_nomos.Map.Laws.{lookup-insert}
use aperip_nomos.Database.{Crates, RnmdbLaws, insert_row}
use aperip_nomos.Store.State.{
  StoreError, duplicate_slug, storage_unavailable, DatabaseState, StoreCore,
}
use aperip_nomos.Store.Load.{load_rows, load_from, load_row}
use aperip_nomos.Store.Load.Rows.{FromUpload, row_of, decode_document-row_of}
use aperip_nomos.Store.Load.Append.{
  AllBelow, insert_row_last, load_from-append, load_from-AllBelow, AllBelow-mono,
}
use aperip_nomos.Store.Load.Delete.{load_row_new}
use aperip_nomos.Store.Core.{document_eq, find, is_durable, recover_after_create_error, recover}
use aperip_nomos.Store.Coherent.{Loads, Coherent, find-Loads}
use aperip_nomos.Store.Reopen.{recover-Recovered}

document_eq_refl : (d : LicenseDocument) → document_eq d d ≡ true
unfolding document_eq
document_eq_refl d = ground (
  arith,
  text_eq_refl d.slug,
  text_eq_refl d.title,
  text_eq_refl d.body,
  text_eq_refl d.source_filename,
  text_eq_refl d.sha256,
)

pub answer {ℓ κ μ} :
    {S : Type ℓ} {E : Type κ} {A : Type μ} (b : Bool) (e : E) (a : A) (s : S)
    → proceed {A = Unit {0}} (if b then ok tt else err e, s) (λ _. pure a)
      ≡ (if b then ok a else err e, s)
answer true e a s = refl
answer false e a s = refl

-- Why a creation is refused: a slug that readers find is a duplicate, and otherwise the storage is not
-- available.
abbrev pub RefusesCreate : Option LicenseDocument → StoreError → Type 0
RefusesCreate (some d) e = e ≡ duplicate_slug
RefusesCreate none e = e ≡ storage_unavailable

pub free-RefusesCreate :
    (o : Option LicenseDocument) (e : StoreError)
    → o ≡ none
    → e ≡ storage_unavailable
    → RefusesCreate o e
free-RefusesCreate none e h k = k
free-RefusesCreate (some d) e h k = cc

module _ (x : Crates) (laws : RnmdbLaws x.db) where
  open x use {db}
  open laws use {table, pending}

  -- A table with the new row loads to the map with the new document.
  pub insert_row-Loads :
      (t : List Row) (m : Map LicenseDocument) (n next : ℤ) (draft : LicenseDraft)
      → Loads x laws t m n
      → FromUpload x draft
      → pos 1 ≤ℤ n
      → checked_add_one n ≡ some next
      → lookup draft.slug m ≡ none
      → Loads x laws
          (insert_row (row_of x (into_document draft n)) t)
          (insert draft.slug (into_document draft n) m)
          next
  insert_row-Loads t m n next draft l u low e absent = record {
    loaded = insert draft.slug document l.loaded;
    bound = max_ℤ l.bound next;
    loads = unfold load_rows in rw last appended;
    same = λ slug.
        rw
          (
            lookup-insert draft.slug slug document m,
            lookup-insert draft.slug slug document l.loaded,
          )
          (rw (l.same slug));
    fits = ground (arith, checked_add_one-lt n next e, l.fits);
  }
    where
      document : LicenseDocument
      document = into_document draft n

      row : Row
      row = row_of x document

      raw : load_from x [] (pos 1) t ≡ ok (l.loaded, l.bound)
      raw = unfold load_rows in l.loads

      below : AllBelow n t
      below =
          AllBelow-mono l.bound n t l.fits
            (load_from-AllBelow x [] (pos 1) t l.loaded l.bound raw).1

      last : insert_row row t ≡ t ++ row ∷ []
      last = insert_row_last n row t (unfold into_document in refl) below

      new :
          load_row x l.loaded l.bound row
          ≡ ok (insert draft.slug document l.loaded, max_ℤ l.bound next)
      new =
          unfold into_document in
          load_row_new x l.loaded l.bound row document next (decode_document-row_of x draft n u low)
            e (sym (l.same draft.slug) ∙ absent)

      appended :
          load_from x [] (pos 1) (t ++ row ∷ [])
          ≡ ok (insert draft.slug document l.loaded, max_ℤ l.bound next)
      appended = rw (load_from-append x [] (pos 1) t row, raw) new

  -- What a creation leaves behind, where `before` is what readers saw: on success they see the new
  -- document too; on failure they see what they saw, unless the state is gone and the actor stops.
  pub record Created (before : Text → Option LicenseDocument) (draft : LicenseDraft)
      (r : Result StoreError LicenseDocument × StoreCore db) : Type 0 where
    pub coherent : Coherent x laws r.1
    pub success :
        (d : LicenseDocument)
        → r.0 ≡ ok d
        → (before draft.slug ≡ none)
          × (d ≡ into_document draft d.id)
          × ((slug : Text)
              → find x r.1.state slug ≡ (if text_eq draft.slug slug then some d else before slug))
    pub reason : (e : StoreError) → r.0 ≡ err e → RefusesCreate (before draft.slug) e
    pub failure :
        (e : StoreError)
        → r.0 ≡ err e
        → ((slug : Text) → find x r.1.state slug ≡ before slug)
          ⊎ ((r.1.state ≡ none) × (r.1.shared.alive ≡ false))

  module _ (core : StoreCore db) (state : DatabaseState db) (draft : LicenseDraft) (next : ℤ)
      (t after : List Row) where
    abbrev document : LicenseDocument
    document = into_document draft state.next_id

    -- the answer after a recovery, from the documents that it found
    settle-Created :
        (core' : StoreCore db) (state' : DatabaseState db)
        → core'.state ≡ some state'
        → Coherent x laws core'
        → lookup draft.slug state.licenses ≡ none
        → Loads x laws t state.licenses state.next_id
        → Loads x laws after (insert draft.slug document state.licenses) next
        → (table core'.world ≡ t) ⊎ (table core'.world ≡ after)
        → Created
            (λ slug. lookup slug state.licenses)
            draft
            (
              if is_durable x (find x core'.state draft.slug) document
                  then ok document
                  else err storage_unavailable,
              core',
            )
    settle-Created core' state' e coherent absent old new (inl same) =
        unfold is_durable in
        rw (view draft.slug ∙ absent) (record {
          coherent = coherent;
          success = λ d h. cc;
          reason = λ f h. free-RefusesCreate (lookup draft.slug state.licenses) f absent (cc);
          failure = λ f h. inl view;
        })
      where
        view : (slug : Text) → find x core'.state slug ≡ lookup slug state.licenses
        view slug =
            find-Loads x laws core' state' t state.licenses state.next_id slug e coherent same old
    settle-Created core' state' e coherent absent old new (inr same) =
        unfold is_durable in
        rw (view draft.slug, text_eq_refl draft.slug, document_eq_refl document)
          (record {
            coherent = coherent;
            success = λ d h.
                let made : document ≡ d = cc in
                rw (← made) (unfold into_document in (absent, refl, view));
            reason = λ f h. cc;
            failure = λ f h. cc;
          })
      where
        view :
            (slug : Text)
            → find x core'.state slug
              ≡ (if text_eq draft.slug slug then some document else lookup slug state.licenses)
        view slug =
            find-Loads x laws core' state' after (insert draft.slug document state.licenses) next
              slug e coherent same new
            ∙ lookup-insert draft.slug slug document state.licenses

    -- recovery after a write that failed, with or without effect
    pub reconcile-Created :
        core.state ≡ some state
        → lookup draft.slug state.licenses ≡ none
        → Loads x laws t state.licenses state.next_id
        → Loads x laws after (insert draft.slug document state.licenses) next
        → (table core.world ≡ t) ⊎ (table core.world ≡ after)
        → Created
            (λ slug. lookup slug state.licenses)
            draft
            ((recover_after_create_error x document >> pure document) core)
    unfolding recover_after_create_error
    reconcile-Created h absent old new either =
        let r = recover-Recovered x laws core state h in
        elim r.outcome [
          | inr (failed, ready, alive, gone) ↦
              let core' = (recover x core).1 in
              rw (proceed-err (recover x core) _ failed) (record {
                coherent = r.coherent;
                success = λ d k. cc;
                reason = λ f h. free-RefusesCreate (lookup draft.slug state.licenses) f absent (cc);
                failure = λ f k. inr (gone, alive);
              })
          | inl (done, ready, alive, (state', e)) ↦
              rw
                (
                  proceed-ok (recover x core) _ done,
                  answer _ storage_unavailable document (recover x core).1,
                )
                (unfold into_document in
                  settle-Created (recover x core).1 state' e r.coherent absent old new
                    (rw r.kept either))
        ]
