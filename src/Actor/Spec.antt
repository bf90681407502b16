-- ===== src/Actor/Spec.antt =====
-- What the store of src/store.rs promises its clients: a map from slugs to documents, which each
-- command reads or changes at once.
use mathlib.Core.List.{Perm}
use aperip_nomos.Prelude.{map, ◌≡◌, List, [], ◌∷◌, Option, none, some, if◌then◌else◌}
use aperip_nomos.Prelude.Result.{ok, err, ok_or}
use aperip_nomos.Text.{Text, text_eq}
use aperip_nomos.Domain.{LicenseDraft, LicenseDocument, LicenseMetadata, metadata, into_document}
use aperip_nomos.Map.{Map, lookup, values}
use aperip_nomos.Map.Laws.{IsOrdered}
use aperip_nomos.Store.State.{
  StoreCommand, create, list, get, delete, ping, shutdown, StoreError, not_found,
}
use aperip_nomos.Store.Create.Reconcile.{RefusesCreate}
use aperip_nomos.Store.Delete.Reconcile.{RefusesDelete}
use aperip_nomos.Store.Listing.{IsListed}
use aperip_nomos.Actor.{Answer, created, listed, got, deleted, pinged}

-- the document that readers see under each slug
abbrev pub View : Type 0
View = Text → Option LicenseDocument

abbrev pub Same : View → View → Type 0
Same v v' = (slug : Text) → v' slug ≡ v slug

-- the documents of the view, each under its slug and no slug twice
abbrev pub Fills : View → Map LicenseDocument → Type 0
Fills v documents = IsOrdered documents × ((slug : Text) → lookup slug documents ≡ v slug)

-- A command, asked in the view `v`, may get these answers and leave the view `v'`.
pub data Allowed (v v' : View) : StoreCommand → List Answer → Type 0 where
  create_ok :
      (draft : LicenseDraft) (d : LicenseDocument)
      → v draft.slug ≡ none
      → d ≡ into_document draft d.id
      → ((slug : Text) → v' slug ≡ (if text_eq draft.slug slug then some d else v slug))
      → Allowed v v' (create draft) (created (ok d) ∷ [])
  create_err :
      (draft : LicenseDraft) (e : StoreError)
      → RefusesCreate (v draft.slug) e
      → Same v v'
      → Allowed v v' (create draft) (created (err e) ∷ [])
  list_ok :
      (documents : Map LicenseDocument) (l : List LicenseMetadata)
      → Fills v documents
      → Perm l (map metadata (values documents))
      → IsListed l
      → Same v v'
      → Allowed v v' list (listed (ok l) ∷ [])
  get_any :
      (slug : Text) → Same v v' → Allowed v v' (get slug) (got (ok_or (v slug) not_found) ∷ [])
  delete_ok :
      (slug : Text) (d : LicenseDocument)
      → v slug ≡ some d
      → ((j : Text) → v' j ≡ (if text_eq slug j then none else v j))
      → Allowed v v' (delete slug) (deleted (ok d) ∷ [])
  delete_err :
      (slug : Text) (e : StoreError)
      → RefusesDelete (v slug) e
      → Same v v'
      → Allowed v v' (delete slug) (deleted (err e) ∷ [])
  ping_ok : Same v v' → Allowed v v' ping (pinged (ok tt) ∷ [])

-- the answer to a command whose write fails, if the database cannot be opened again either
pub data Lost : StoreCommand → List Answer → Type 0 where
  lost_create : (draft : LicenseDraft) (e : StoreError) → Lost (create draft) (created (err e) ∷ [])
  lost_delete : (slug : Text) (e : StoreError) → Lost (delete slug) (deleted (err e) ∷ [])

-- A run over the commands that the actor receives, and the view that it ends in. Each command is
-- answered as its turn comes. A shutdown ends the run, and so does a loss, which leaves no view; the
-- commands after it are not answered.
pub data Trace : View → List StoreCommand → List (List Answer) → Option View → Type 0 where
  ended : (v : View) → Trace v [] [] (some v)
  served :
      (v v' : View) (c : StoreCommand) (a : List Answer) (cs : List StoreCommand)
      (more : List (List Answer)) (e : Option View)
      → Allowed v v' c a
      → Trace v' cs more e
      → Trace v (c ∷ cs) (a ∷ more) e
  stopped : (v : View) (cs : List StoreCommand) → Trace v (shutdown ∷ cs) ([] ∷ []) (some v)
  lost :
      (v : View) (c : StoreCommand) (a : List Answer) (cs : List StoreCommand)
      → Lost c a
      → Trace v (c ∷ cs) (a ∷ []) none
