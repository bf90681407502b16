-- ===== src/Markdown/Room.antt =====
-- The limits of the cache of src/markdown.rs, and that its loop always makes room.
use aperip_nomos.Prelude.{
  ℕ, zero, suc, ◌+◌, ◌≤◌, ◌<◌, ◌≡◌, refl, ◌⊎◌, inl, inr, Bool, true, false, ◌||◌, List, [], ◌∷◌,
  ◌++◌, some, none, arith, Bool-cases, length, ltb,
}
use aperip_nomos.Text.{Text, byte_len, text_eq}
use aperip_nomos.Text.Equality.{text_eq_iff, text_eq_refl}
use aperip_nomos.Map.{Map, lookup, contains_key, remove}
use aperip_nomos.Map.Laws.{lookup-remove, contains_key-eq-false}
use aperip_nomos.Markdown.{
  RenderCache, max_cache_entries, max_cache_bytes, saturating_add, put, bytes_without, remove_first,
  remove_oldest, is_full, make_room, store, insert,
}
use aperip_nomos.Markdown.Table.{
  total, IsDistinct, remove_absent, remove_comm, remove-IsDistinct, remove-total,
}

-- the queue has the keys of the entries, each once
abbrev pub Queued : List Text → Map Text → Type 0
Queued [] m = m ≡ []
Queued (k ∷ ks) m = (v : Text) × (lookup k m ≡ some v) × Queued ks (remove k m)

pub record IsCounted (cache : RenderCache) : Type 0 where
  pub queued : Queued cache.order cache.entries
  pub distinct : IsDistinct cache.entries
  pub counted : cache.bytes ≡ total cache.entries
  pub few : length cache.entries ≤ max_cache_entries
  pub light : cache.bytes ≤ max_cache_bytes

remove_first-IsCounted :
    (k : Text) (ks : List Text) (cache : RenderCache)
    → Queued (k ∷ ks) cache.entries
    → IsCounted cache
    → IsCounted (remove_first (k ∷ ks) cache).1
unfolding remove_first bytes_without
remove_first-IsCounted k ks cache (v, here, rest) c =
    let less = remove-total k v cache.entries c.distinct here in
    rw here (record {
      queued = rest;
      distinct = remove-IsDistinct k cache.entries c.distinct;
      counted = omega (arith, less.0, c.counted);
      few = omega (arith, less.1, c.few);
      light = omega (arith, c.light);
    })

is_full-empty :
    (size : ℕ) (cache : RenderCache)
    → size ≤ max_cache_bytes
    → cache.entries ≡ []
    → cache.bytes ≡ total cache.entries
    → is_full size cache ≡ false
unfolding is_full saturating_add
is_full-empty size cache l e b = let none_left : cache.bytes ≡ 0 = rw e at b in rw e (ground arith)

-- What the loop leaves: room for the new entry, and no entry that was not there.
pub record Roomy (size : ℕ) (before cache : RenderCache) : Type 0 where
  pub counted : IsCounted cache
  pub free : is_full size cache ≡ false
  pub fewer :
      (k : Text)
      → (lookup k cache.entries ≡ none) ⊎ (lookup k cache.entries ≡ lookup k before.entries)

fewer_trans :
    (k digest : Text) (m m' : Map Text)
    → (lookup k m' ≡ none) ⊎ (lookup k m' ≡ lookup k (remove digest m))
    → (lookup k m' ≡ none) ⊎ (lookup k m' ≡ lookup k m)
fewer_trans k digest m m' (inl gone) = inl gone
fewer_trans k digest m m' (inr same) = ground (arith, lookup-remove digest k m)

Queued-of_eq : (a b : List Text) (m : Map Text) → a ≡ b → Queued a m → Queued b m
Queued-of_eq a b m e h = rw (← e) h

pub make_room-Roomy :
    (fuel size : ℕ) (order : List Text) (cache : RenderCache)
    → cache.order ≡ order
    → length order < fuel
    → size ≤ max_cache_bytes
    → IsCounted cache
    → ((make_room fuel size cache).0 ≡ true) × Roomy size cache (make_room fuel size cache).1
unfolding make_room remove_oldest remove_first
make_room-Roomy zero size order cache e l s c = absurd (omega arith)
make_room-Roomy (suc fuel) size [] cache e l s c = elim (Bool-cases (is_full size cache)) [
  | inr free ↦ rw free (refl, record { counted = c; free = free; fewer = λ k. inr refl })
  | inl full ↦
      let bare : cache.entries ≡ [] = rw e at c.queued in
      absurd (cc (is_full-empty size cache s bare c.counted, full))
]
make_room-Roomy (suc fuel) size (digest ∷ rest) cache e l s c =
    elim (Bool-cases (is_full size cache)) [
      | inr free ↦ rw free (refl, record { counted = c; free = free; fewer = λ k. inr refl })
      | inl full ↦
          let queued : Queued (digest ∷ rest) cache.entries =
            Queued-of_eq cache.order (digest ∷ rest) cache.entries e c.queued in
          let smaller = remove_first-IsCounted digest rest cache queued c in
          let next = (remove_first (digest ∷ rest) cache).1 in
          let more = make_room-Roomy fuel size rest next refl (omega (arith, l)) s smaller in
          rw (full, e)
            ((
              more.0,
              record {
                counted = more.1.counted;
                free = more.1.free;
                fewer = λ k.
                    fewer_trans k digest cache.entries (make_room fuel size next).1.entries
                      (more.1.fewer k);
              },
            ))
    ]

other_key :
    (j k w : Text) (m : Map Text) → lookup k m ≡ none → lookup j m ≡ some w → text_eq k j ≡ false
other_key j k w m h here = elim (Bool-cases (text_eq k j)) [
  | inr apart ↦ apart
  | inl same ↦ let e : k ≡ j = (text_eq_iff k j).0 same in absurd (cc (e, h, here))
]

Queued-put :
    (ks : List Text) (k v : Text) (m : Map Text)
    → lookup k m ≡ none
    → Queued ks m
    → Queued (ks ++ k ∷ []) (put k v m)
unfolding put lookup remove
Queued-put [] k v m h e = rw (e, text_eq_refl k) (v, refl, refl)
Queued-put (j ∷ ks) k v m h (w, here, rest) =
    let apart : text_eq k j ≡ false = other_key j k w m h here in
    let gone : remove k m ≡ m = remove_absent k m h in
    let next = Queued-put ks k v (remove j m) (ground (arith, lookup-remove j k m)) rest in
    (w, rw (apart, gone) here, rw (apart, remove_comm j k m) next)

store-IsCounted :
    (digest rendered : Text) (cache : RenderCache)
    → IsCounted cache
    → is_full (byte_len rendered) cache ≡ false
    → byte_len rendered ≤ max_cache_bytes
    → lookup digest cache.entries ≡ none
    → IsCounted (store digest rendered (true, cache))
unfolding store
store-IsCounted digest rendered cache c free s absent =
    let same = remove_absent digest cache.entries absent in
    let queued = Queued-put cache.order digest rendered cache.entries absent c.queued in
    let room : (suc (length cache.entries) ≤ max_cache_entries)
        × (cache.bytes + byte_len rendered ≤ max_cache_bytes) =
      unfold is_full saturating_add in ground (arith, c.light) in
    record {
      queued = queued;
      distinct = unfold put in rw same (absent, c.distinct);
      counted = unfold put in rw same (omega (arith, c.counted));
      few = unfold put in rw same (room.0);
      light = room.1;
    }

still_absent :
    (digest : Text) (m m' : Map Text)
    → lookup digest m ≡ none
    → (lookup digest m' ≡ none) ⊎ (lookup digest m' ≡ lookup digest m)
    → lookup digest m' ≡ none
still_absent digest m m' h (inl gone) = gone
still_absent digest m m' h (inr same) = cc

-- `insert` skips an entry that is too large or there already, and stores any other in a cache with room.
pub insert-cases :
    (digest rendered : Text) (cache : RenderCache)
    → IsCounted cache
    → ((insert digest rendered cache ≡ cache)
        × ((max_cache_bytes < byte_len rendered) ⊎ (contains_key digest cache.entries ≡ true)))
      ⊎ ((room : RenderCache) × Roomy (byte_len rendered) cache room
          × (byte_len rendered ≤ max_cache_bytes)
          × (lookup digest room.entries ≡ none)
          × (insert digest rendered cache ≡ store digest rendered (true, room)))
unfolding insert
insert-cases digest rendered cache c =
    elim (Bool-cases
      (ltb max_cache_bytes (byte_len rendered) || contains_key digest cache.entries)) [
        | inl skipped ↦ inl (rw skipped refl, ground arith)
        | inr taken ↦
            let size : byte_len rendered ≤ max_cache_bytes = ground arith in
            let absent = (contains_key-eq-false digest cache.entries).0 (ground arith) in
            let room =
              make_room-Roomy (suc (length cache.order)) (byte_len rendered) cache.order cache refl
                (omega arith) size c in
            let still = still_absent digest cache.entries _ absent (room.1.fewer digest) in
            inr (_, room.1, size, still, rw (taken, insert) (stored _ room.0))
      ]
  where
    stored :
        (made : Bool × RenderCache)
        → made.0 ≡ true
        → store digest rendered made ≡ store digest rendered (true, made.1)
    stored (true, cache') e = refl
    stored (false, cache') e = cc

-- On a cache within its limits, `insert` keeps them: at most 32 entries and 16 MiB, a byte count that
-- is the sum over the entries, and a queue that has each key once.
pub insert-IsCounted :
    (digest rendered : Text) (cache : RenderCache)
    → IsCounted cache
    → IsCounted (insert digest rendered cache)
insert-IsCounted digest rendered cache c = elim (insert-cases digest rendered cache c) [
  | inl (same, why) ↦ rw same c
  | inr (room, roomy, size, still, made) ↦
      rw made (store-IsCounted digest rendered room roomy.counted roomy.free size still)
]

-- the cache before its first entry
pub empty-IsCounted : IsCounted (record { entries = []; order = []; bytes = 0 })
empty-IsCounted = record {
  queued = refl;
  distinct = tt;
  counted = refl;
  few = omega arith;
  light = omega arith;
}
