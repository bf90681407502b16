-- ===== src/Markdown/Contents.antt =====
-- What the cache of src/markdown.rs returns: a rendering is kept, and is never that of other text.
use aperip_nomos.Prelude.{
  ◌≤◌, ◌<◌, ◌≡◌, refl, ◌⊎◌, inl, inr, true, some, none, arith, ltb, Bool-cases, Option-cases,
  if◌then◌else◌,
}
use aperip_nomos.Prelude.Result.{Result, ok, err}
use aperip_nomos.Text.{Text, byte_len, text_eq}
use aperip_nomos.Text.Equality.{text_eq_iff, text_eq_refl}
use aperip_nomos.Map.{lookup}
use aperip_nomos.Map.Laws.{lookup-remove, contains_key-eq-false}
use aperip_nomos.Markdown.{
  RenderCache, MarkdownRenderError, output_too_large, max_cache_bytes, max_rendered_bytes, get, put,
  store, insert, render_now, render_once,
}
use aperip_nomos.Markdown.Room.{IsCounted, insert-cases, insert-IsCounted}

lookup-put :
    (k digest rendered : Text) (cache : RenderCache)
    → lookup k (store digest rendered (true, cache)).entries
      ≡ (if text_eq digest k then some rendered else lookup k cache.entries)
unfolding store put lookup
lookup-put k digest rendered cache = ground (arith, lookup-remove digest k cache.entries)

-- In a cache within its limits, a rendering of at most 16 MiB under a new digest is found after it was
-- inserted: the loop always makes room for it.
pub get-insert :
    (digest rendered : Text) (cache : RenderCache)
    → IsCounted cache
    → byte_len rendered ≤ max_cache_bytes
    → get cache digest ≡ none
    → get (insert digest rendered cache) digest ≡ some rendered
unfolding get
get-insert digest rendered cache c s absent = elim (insert-cases digest rendered cache c) [
  | inl (same, inl large) ↦ absurd (omega (arith, large, s))
  | inl (same, inr here) ↦ absurd (cc ((contains_key-eq-false digest cache.entries).1 absent, here))
  | inr (room, roomy, size, still, made) ↦
      rw (made, lookup-put digest digest rendered room, text_eq_refl digest) refl
]

-- After an insertion into a cache within its limits, whatever is found is the new rendering under its digest, or was found before.
pub insert_sound :
    (digest rendered k v : Text) (cache : RenderCache)
    → IsCounted cache
    → get (insert digest rendered cache) k ≡ some v
    → ((k ≡ digest) × (v ≡ rendered)) ⊎ (get cache k ≡ some v)
unfolding get
insert_sound digest rendered k v cache c h = elim (insert-cases digest rendered cache c) [
  | inl (same, why) ↦ inr (rw same at h)
  | inr (room, roomy, size, still, made) ↦
      let found : (if text_eq digest k then some rendered else lookup k room.entries) ≡ some v =
        rw (made, lookup-put k digest rendered room) at h in
      elim (Bool-cases (text_eq digest k)) [
        | inl same ↦ inl (ground (arith, text_eq_iff digest k), ground arith)
        | inr apart ↦ elim (roomy.fewer k) [
          | inl gone ↦ absurd (ground arith)
          | inr kept ↦ inr (ground arith)
        ]
      ]
]

module _ (render : Text → Text) where
  -- every entry is the rendering that `rendering` names for its digest
  abbrev pub IsFaithful : (Text → Text) → RenderCache → Type 0
  IsFaithful rendering cache = (k v : Text) → get cache k ≡ some v → v ≡ rendering k

  abbrev pub Rendered :
      (Text → Text) → Text → Result MarkdownRenderError Text × RenderCache → Type 0
  Rendered rendering markdown r =
      IsFaithful rendering r.1
      × IsCounted r.1
      × ((r.0 ≡ ok (render markdown))
          ⊎ ((r.0 ≡ err output_too_large) × (max_rendered_bytes < byte_len (render markdown))))

  pub render_now-Rendered :
      (rendering : Text → Text) (digest markdown : Text) (cache : RenderCache)
      → IsCounted cache
      → IsFaithful rendering cache
      → rendering digest ≡ render markdown
      → Rendered rendering markdown (render_now render digest markdown cache)
  unfolding render_now
  render_now-Rendered rendering digest markdown cache c f e =
      elim (Bool-cases (ltb max_rendered_bytes (byte_len (render markdown)))) [
        | inl large ↦ rw large (f, c, inr (refl, ground arith))
        | inr fits ↦
            let all_good : IsFaithful rendering (insert digest (render markdown) cache) = λ k v h.
              elim (insert_sound digest (render markdown) k v cache c h) [
                | inl (same, new) ↦ rw (same, new, e) refl
                | inr old ↦ f k v old
              ] in
            rw fits (all_good, insert-IsCounted digest (render markdown) cache c, inl refl)
      ]

  -- If the entries of a cache within its limits are the renderings of the texts that their digests
  -- stand for, then `render_once` returns the rendering of its text, from the cache or not, or finds it
  -- larger than 8 MiB; and its cache keeps both properties.
  pub render_once-Rendered :
      (rendering : Text → Text) (digest markdown : Text) (cache : RenderCache)
      → IsCounted cache
      → IsFaithful rendering cache
      → rendering digest ≡ render markdown
      → Rendered rendering markdown (render_once render digest markdown cache)
  unfolding render_once
  render_once-Rendered rendering digest markdown cache c f e =
      elim (Option-cases (get cache digest)) [
        | inl absent ↦
            rw (absent, render_once) (render_now-Rendered rendering digest markdown cache c f e)
        | inr (v, here) ↦ rw (here, render_once) (f, c, inl (rw (f digest v here, e) refl))
      ]
