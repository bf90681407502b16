-- ===== src/Markdown.antt =====
-- src/markdown.rs: the events of a document that are kept, and the cache of rendered documents. The
-- rendering of a text is the parameter `render`, and Markdown/Page.antt has the one of the program.
-- A `HashMap` is the list of its entries, of which the code uses the number and the lookup only.
pub mod Events
pub mod Table
pub mod Room
pub mod Contents
pub mod Flights
pub mod Page
use aperip_nomos.Prelude.{
  ℕ, zero, suc, ◌+◌, ◌-◌, ◌*◌, ◌^◌, Bool, true, false, not, ◌||◌, List, [], ◌∷◌, ◌++◌, Option, none,
  some, ltb, leb, if◌then◌else◌, length,
}
use aperip_nomos.Prelude.Result.{Result, ok, err}
use aperip_nomos.Text.{Text, byte_len}
use aperip_nomos.Map.{Map, lookup, contains_key, remove}

abbrev pub max_cache_entries : ℕ
max_cache_entries = 32

abbrev pub max_cache_bytes : ℕ
max_cache_bytes = 16 * 1024 * 1024

abbrev pub max_rendered_bytes : ℕ
max_rendered_bytes = 8 * 1024 * 1024

pub record RenderCache : Type 0 where
  pub entries : Map Text
  pub order : List Text
  pub bytes : ℕ

-- `RenderCache::default`
abbrev pub empty_cache : RenderCache
empty_cache = record { entries = []; order = []; bytes = 0 }

pub data MarkdownRenderError : Type 0 where
  output_too_large worker_failed : MarkdownRenderError

-- `usize::saturating_add`, for 64 bits
unfoldable pub saturating_add : ℕ → ℕ → ℕ
saturating_add a b = if ltb (a + b) (2 ^ 64) then a + b else 2 ^ 64 - 1

-- `HashMap::insert`
unfoldable pub put {ℓ} : {V : Type ℓ} → Text → V → Map V → Map V
put k v m = (k, v) ∷ remove k m

-- `RenderCache::get`
unfoldable pub get : RenderCache → Text → Option Text
get cache digest = lookup digest cache.entries

-- the bytes that are left when an entry is taken out
unfoldable pub bytes_without : Option Text → ℕ → ℕ
bytes_without none bytes = bytes
bytes_without (some rendered) bytes = bytes - byte_len rendered

-- `remove_oldest`, given the queue
unfoldable pub remove_first : List Text → RenderCache → Bool × RenderCache
remove_first [] cache = (false, cache)
remove_first (digest ∷ rest) cache = (
  true,
  record {
    entries = remove digest cache.entries;
    order = rest;
    bytes = bytes_without (lookup digest cache.entries) cache.bytes;
  },
)

unfoldable pub remove_oldest : RenderCache → Bool × RenderCache
remove_oldest cache = remove_first cache.order cache

-- the condition of the loop of `insert`
unfoldable pub is_full : ℕ → RenderCache → Bool
is_full size cache =
    leb max_cache_entries (length cache.entries)
    || ltb max_cache_bytes (saturating_add cache.bytes size)

-- The loop of `insert`; its Boolean is false where the source returns. Each round shortens the queue,
-- so one round more than its length is fuel enough.
unfoldable pub make_room : ℕ → ℕ → RenderCache → Bool × RenderCache
make_room zero size cache = (false, cache)
make_room (suc fuel) size cache =
    let removed = remove_oldest cache in
    let again = make_room fuel size removed.1 in
    if is_full size cache then (if removed.0 then again else (false, removed.1)) else (true, cache)

-- `insert` after its loop
unfoldable pub store : Text → Text → Bool × RenderCache → RenderCache
store digest rendered (true, cache) = record {
  entries = put digest rendered cache.entries;
  order = cache.order ++ digest ∷ [];
  bytes = cache.bytes + byte_len rendered;
}
store digest rendered (false, cache) = cache

-- `RenderCache::insert`
unfoldable pub insert : Text → Text → RenderCache → RenderCache
insert digest rendered cache =
    if ltb max_cache_bytes (byte_len rendered) || contains_key digest cache.entries
    then cache
    else store digest rendered (make_room (suc (length cache.order)) (byte_len rendered) cache)

module _ (render : Text → Text) where
  -- the blocking task of `render_once`
  unfoldable pub render_now :
      Text → Text → RenderCache → Result MarkdownRenderError Text × RenderCache
  render_now digest markdown cache =
      if ltb max_rendered_bytes (byte_len (render markdown))
      then (err output_too_large, cache)
      else (ok (render markdown), insert digest (render markdown) cache)

  -- `render_once`, once it has its permit and if its task is not aborted
  unfoldable pub render_once :
      Text → Text → RenderCache → Result MarkdownRenderError Text × RenderCache
  render_once digest markdown cache = elim (get cache digest) [
    | some rendered ↦ (ok rendered, cache)
    | none ↦ render_now digest markdown cache
  ]
