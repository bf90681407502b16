-- ===== src/Actor/Lives.antt =====
-- The flag `alive` of src/store.rs after `create` and `delete`: it goes out with the state only.
use aperip_nomos.Prelude.{
  ◌≡◌, refl, ◌⊎◌, inl, inr, true, false, Option, none, some, Option-cases, Bool-cases, Bool,
}
use aperip_nomos.Prelude.Int.{checked_add_one}
use aperip_nomos.Prelude.Result.{Result, Result-cases, ok, err}
use aperip_nomos.Prelude.Exec.{Exec, pure, ◌>>◌, proceed}
use aperip_nomos.Text.{Text}
use aperip_nomos.Domain.{LicenseDraft, LicenseDocument, into_document}
use aperip_nomos.Map.{lookup, contains_key}
use aperip_nomos.Database.{Crates}
use aperip_nomos.Store.State.{StoreError, DatabaseState, StoreCore}
use aperip_nomos.Store.Load.{open_database}
use aperip_nomos.Store.Core.{
  create_in, delete_in, write_document, remove_document, recover, recover_after_create_error,
  recover_after_delete_error, persist_create, persist_delete, close_state,
}

module _ (x : Crates) where
  open x use {db}

  abbrev pub is_open : Option (DatabaseState db) → Bool
  is_open none = false
  is_open (some state) = true

  -- The flag `alive` goes out together with the state, and then the operation fails. Otherwise a state
  -- `o` that was open before is still open.
  abbrev pub Lives {ℓ} :
      Option (DatabaseState db) → {A : Type ℓ} → Result StoreError A × StoreCore db → Type ℓ
  Lives o r =
      ((r.1.shared.alive ≡ true) × (is_open o ≡ true → is_open r.1.state ≡ true))
      ⊎ ((r.1.shared.alive ≡ false) × (r.1.state ≡ none) × ((e : StoreError) × (r.0 ≡ err e)))

  proceed-Lives {ℓ κ} :
      (o : Option (DatabaseState db)) {A : Type ℓ} {B : Type κ}
      (p : Result StoreError A × StoreCore db) (f : A → Exec (StoreCore db) StoreError B)
      → Lives o p
      → ((a : A) → (f a p.1).1 ≡ p.1)
      → Lives o (proceed p f)
  proceed-Lives o (ok a, core) f (inl (alive, open_)) kept = inl (rw (kept a) (alive, open_))
  proceed-Lives o (ok a, core) f (inr (dead, gone, (e, failed))) kept = absurd (cc)
  proceed-Lives o (err e, core) f (inl (alive, open_)) kept = inl (alive, open_)
  proceed-Lives o (err e, core) f (inr (dead, gone, (e', failed))) kept =
      inr (dead, gone, (e, refl))

  recover-Lives :
      (o : Option (DatabaseState db)) (core : StoreCore db)
      → core.shared.alive ≡ true
      → Lives o (recover x core)
  unfolding recover
  recover-Lives o core h =
      elim (Result-cases (open_database x core.config (close_state x core.state core.world)).0) [
        | inl (state, e) ↦ rw (e, recover) (inl (h, λ _. refl))
        | inr (f, e) ↦ rw (e, recover) (inr (refl, refl, (_, refl)))
      ]

  created_again-Lives :
      (o : Option (DatabaseState db)) (document : LicenseDocument) (core : StoreCore db)
      → core.shared.alive ≡ true
      → Lives o ((recover_after_create_error x document >> pure document) core)
  unfolding recover_after_create_error
  created_again-Lives o document core h =
      proceed-Lives o (recover_after_create_error x document core) (λ v. pure document)
        (proceed-Lives o (recover x core) _ (recover-Lives o core h) λ v. refl) λ v. refl

  deleted_again-Lives :
      (o : Option (DatabaseState db)) (slug : Text) (document : LicenseDocument)
      (core : StoreCore db)
      → core.shared.alive ≡ true
      → Lives o ((recover_after_delete_error x slug >> pure document) core)
  unfolding recover_after_delete_error
  deleted_again-Lives o slug document core h =
      proceed-Lives o (recover_after_delete_error x slug core) (λ v. pure document)
        (proceed-Lives o (recover x core) _ (recover-Lives o core h) λ v. refl) λ v. refl

  pub create_in-Lives :
      (o : Option (DatabaseState db)) (draft : LicenseDraft) (core : StoreCore db)
      → core.shared.alive ≡ true
      → core.state ≡ o
      → Lives o (create_in x o draft core)
  unfolding create_in write_document
  create_in-Lives none draft core h same = inl (h, λ k. cc)
  create_in-Lives (some state) draft core h same =
      elim (Bool-cases (contains_key draft.slug state.licenses)) [
        | inl taken ↦ rw (taken, create_in) (inl (h, unmoved))
        | inr free ↦ elim (Option-cases (checked_add_one state.next_id)) [
          | inl last ↦ rw (free, last, create_in) (inl (h, unmoved))
          | inr (next, e) ↦
              elim (Result-cases
                (persist_create x state.session (into_document draft state.next_id) core.world).0) [
                  | inl (v, written) ↦
                      rw (free, e, create_in, written, write_document) (inl (h, λ k. refl))
                  | inr (f, failed) ↦
                      rw (free, e, create_in, failed, write_document)
                        (created_again-Lives (some state) (into_document draft state.next_id)
                          (record core {
                            world =
                                (persist_create x state.session (into_document draft state.next_id)
                                  core.world).1;
                          })
                          h)
                ]
        ]
      ]
    where
      unmoved : is_open (some state) ≡ true → is_open core.state ≡ true
      unmoved k = rw same refl

  pub delete_in-Lives :
      (o : Option (DatabaseState db)) (slug : Text) (core : StoreCore db)
      → core.shared.alive ≡ true
      → core.state ≡ o
      → Lives o (delete_in x o slug core)
  unfolding delete_in remove_document
  delete_in-Lives none slug core h same = inl (h, λ k. cc)
  delete_in-Lives (some state) slug core h same = elim (Option-cases (lookup slug state.licenses)) [
    | inl absent ↦ rw (absent, delete_in) (inl (h, unmoved))
    | inr (document, here) ↦
        elim (Result-cases (persist_delete x state.session slug core.world).0) [
          | inl (v, written) ↦ rw (here, delete_in, written, remove_document) (inl (h, λ k. refl))
          | inr (f, failed) ↦
              rw (here, delete_in, failed, remove_document)
                (deleted_again-Lives (some state) slug document
                  (record core { world = (persist_delete x state.session slug core.world).1 }) h)
        ]
  ]
    where
      unmoved : is_open (some state) ≡ true → is_open core.state ≡ true
      unmoved k = rw same refl
