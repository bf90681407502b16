-- ===== src/Markdown/Flights/Sound.antt =====
-- What the requests, cells, tasks and the cache of src/markdown.rs rely on while they render.
use aperip_nomos.Prelude.{ℕ, suc, ◌<◌, ◌≡◌, ◌∙◌, ◌⊎◌, Option, some, arith}
use aperip_nomos.Prelude.Family.{update, update_there}
use aperip_nomos.Prelude.Result.{ok, err}
use aperip_nomos.Text.{Text, byte_len}
use aperip_nomos.Markdown.{RenderCache, output_too_large, worker_failed, max_rendered_bytes}
use aperip_nomos.Markdown.Room.{IsCounted}
use aperip_nomos.Markdown.Contents.{IsFaithful}
use aperip_nomos.Markdown.Flights.{
  Rendering, Cell, empty, filling, filled, Request, idle, missed, joined, queued, permitted,
  rendering, served, returned, cancelled, Job, unborn, active, done,
}

module _ (render source : Text → Text) where
  -- the rendering of a text, or an error
  abbrev pub Right : Text → Rendering → Type 0
  Right markdown r =
      (r ≡ ok (render markdown))
      ⊎ ((r ≡ err output_too_large) × (max_rendered_bytes < byte_len (render markdown)))
      ⊎ (r ≡ err worker_failed)

  -- a cell that was made for a digest, with the text of the digest
  abbrev pub IsAt : (ℕ → Text) → ℕ → Text → Text → ℕ → Type 0
  IsAt keys made digest markdown c = (markdown ≡ source digest) × (c < made) × (keys c ≡ digest)

  abbrev pub RequestSound : (ℕ → Text) → ℕ → Request → Type 0
  RequestSound keys made idle = Unit
  RequestSound keys made (missed d m) = m ≡ source d
  RequestSound keys made (joined d m c) = IsAt keys made d m c
  RequestSound keys made (queued d m c) = IsAt keys made d m c
  RequestSound keys made (permitted d m c) = IsAt keys made d m c
  RequestSound keys made (rendering d m c) = IsAt keys made d m c
  RequestSound keys made (served d m c r) = IsAt keys made d m c × Right m r
  RequestSound keys made (returned d m r) = Right m r
  RequestSound keys made cancelled = Unit

  abbrev pub CellSound : (ℕ → Text) → ℕ → ℕ → Cell → Type 0
  CellSound keys made c empty = Unit
  CellSound keys made c (filling i) = Unit
  CellSound keys made c (filled r) = (c < made) × Right (source (keys c)) r

  abbrev pub JobSound : Job → Type 0
  JobSound unborn = Unit
  JobSound (active d m) = m ≡ source d
  JobSound (done r) = Unit

  -- a request that waits for its task, and what the task does
  abbrev pub Linked : Request → Job → Type 0
  Linked (rendering d m c) unborn = Unit
  Linked (rendering d m c) (active d' m') = m' ≡ m
  Linked (rendering d m c) (done r) = Right m r
  Linked idle b = Unit
  Linked (missed d m) b = Unit
  Linked (joined d m c) b = Unit
  Linked (queued d m c) b = Unit
  Linked (permitted d m c) b = Unit
  Linked (served d m c r) b = Unit
  Linked (returned d m r) b = Unit
  Linked cancelled b = Unit

  -- a request whose task has ended
  pub Linked-done :
      (q : Request) (d m : Text) (r : Rendering)
      → Linked q (active d m)
      → Right m r
      → Linked q (done r)
  Linked-done idle d m r l k = tt
  Linked-done (missed d' m') d m r l k = tt
  Linked-done (joined d' m' c) d m r l k = tt
  Linked-done (queued d' m' c) d m r l k = tt
  Linked-done (permitted d' m' c) d m r l k = tt
  Linked-done (rendering d' m' c) d m r l k = rw (← l) k
  Linked-done (served d' m' c r') d m r l k = tt
  Linked-done (returned d' m' r') d m r l k = tt
  Linked-done cancelled d m r l k = tt

  -- a cell that is made later takes nothing from those before
  pub later-IsAt :
      (keys : ℕ → Text) (made : ℕ) (e d m : Text) (c : ℕ)
      → IsAt keys made d m c
      → IsAt (update keys made e) (suc made) d m c
  later-IsAt keys made e d m c (own, older, key) =
      (own, omega arith, update_there keys made c e (λ k. omega arith) ∙ key)

  pub later_request :
      (keys : ℕ → Text) (made : ℕ) (e : Text) (q : Request)
      → RequestSound keys made q
      → RequestSound (update keys made e) (suc made) q
  later_request keys made e idle h = h
  later_request keys made e (missed d m) h = h
  later_request keys made e (joined d m c) h = later-IsAt keys made e d m c h
  later_request keys made e (queued d m c) h = later-IsAt keys made e d m c h
  later_request keys made e (permitted d m c) h = later-IsAt keys made e d m c h
  later_request keys made e (rendering d m c) h = later-IsAt keys made e d m c h
  later_request keys made e (served d m c r) h = (later-IsAt keys made e d m c (h.0), h.1)
  later_request keys made e (returned d m r) h = h
  later_request keys made e cancelled h = h

  pub later_cell :
      (keys : ℕ → Text) (made : ℕ) (e : Text) (c : ℕ) (x : Cell)
      → CellSound keys made c x
      → CellSound (update keys made e) (suc made) c x
  later_cell keys made e c empty h = h
  later_cell keys made e c (filling i) h = h
  later_cell keys made e c (filled r) (older, right) =
      (omega arith, rw (update_there keys made c e (λ k. omega arith)) right)

  -- `keys` are the digests for which the cells were made.
  pub record Sound (keys : ℕ → Text) (cache : RenderCache) (flights : Text → Option ℕ)
      (cells : ℕ → Cell) (made : ℕ) (requests : ℕ → Request) (jobs : ℕ → Job) : Type 0 where
    pub counted : IsCounted cache
    pub faithful : IsFaithful render (λ d. render (source d)) cache
    pub flying : (d : Text) (c : ℕ) → flights d ≡ some c → (c < made) × (keys c ≡ d)
    pub filling_ : (c : ℕ) → CellSound keys made c (cells c)
    pub asking : (i : ℕ) → RequestSound keys made (requests i)
    pub working : (i : ℕ) → JobSound (jobs i)
    pub linked : (i : ℕ) → Linked (requests i) (jobs i)
