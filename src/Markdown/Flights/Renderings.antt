-- ===== src/Markdown/Flights/Renderings.antt =====
-- What `render_cached` of src/markdown.rs returns, however its callers are interleaved.
use aperip_nomos.Prelude.{ℕ, ◌≡◌, refl, inl, inr, [], Option-cases}
use aperip_nomos.Prelude.Family.{update, update_here}
use aperip_nomos.Prelude.Result.{ok}
use aperip_nomos.Text.{Text}
use aperip_nomos.Map.{lookup}
use aperip_nomos.Markdown.{get}
use aperip_nomos.Markdown.Room.{IsCounted}
use aperip_nomos.Markdown.Contents.{IsFaithful}
use aperip_nomos.Markdown.Flights.{
  Rendering, filling, returned, cancelled, active, Flights, Step, find_cached, miss, join, begin,
  read, acquire, find_again, spawn, finish, panic, collect, leave, cancel_missed, cancel_joined,
  cancel_queued, cancel_rendering, cancel_served, Reach, start, step,
}
use aperip_nomos.Markdown.Flights.Sound.{Right, Linked-done, Sound}
use aperip_nomos.Markdown.Flights.Changes.{
  request-Sound, cell-Sound, job-Sound, finish-Sound, leave-Sound, give_up-Sound, old-Sound,
  new-Sound,
}
use aperip_nomos.Markdown.Room.{empty-IsCounted}

module _ (render source : Text → Text) where
  IsSound : Flights → Type 0
  IsSound s =
      (keys : ℕ → Text) × Sound render source keys s.cache s.flights s.cells s.made s.requests
        s.jobs

  Step-IsSound : {s t : Flights} → Step render source s t → IsSound s → IsSound t
  unfolding IsSound
  Step-IsSound {s} (find_cached i d m v e own hit) (keys, h) = (
    keys,
    request-Sound render source keys _ _ _ _ _ _ h i _
        (inl (let k = h.faithful d v hit in rw (k, own) refl)) tt,
  )
  Step-IsSound {s} (miss i d m e own absent) (keys, h) =
      (keys, request-Sound render source keys _ _ _ _ _ _ h i _ own tt)
  Step-IsSound {s} (join i d m e) (keys, h) =
      let own = rw e at (h.asking i) in
      elim (Option-cases (s.flights d)) [
        | inl absent ↦
            (update keys s.made d, rw absent (new-Sound render source keys _ _ _ _ _ _ h d m i own))
        | inr (c, there) ↦
            (keys, rw there (old-Sound render source keys _ _ _ _ _ _ h d m i c own there))
      ]
  Step-IsSound {s} (begin i d m c e f) (keys, h) =
      let own = rw e at (h.asking i) in
      (
        keys,
        request-Sound render source keys _ _ _ _ _ _
            (cell-Sound render source keys _ _ _ _ _ _ h c (filling i) tt) i _ own tt,
      )
  Step-IsSound {s} (read i d m c r e f) (keys, h) =
      let own = rw e at (h.asking i) in
      let right = rw (f, own.2, ← own.0) at (h.filling_ c) in
      (keys, request-Sound render source keys _ _ _ _ _ _ h i _ (own, right.1) tt)
  Step-IsSound {s} (acquire i d m c free e f) (keys, h) =
      (keys, request-Sound render source keys _ _ _ _ _ _ h i _ (rw e at (h.asking i)) tt)
  Step-IsSound {s} (find_again i d m c v e hit) (keys, h) =
      let own = rw e at (h.asking i) in
      let k = h.faithful d v hit in
      let right : Right render source m (ok v) = inl (rw (k, own.0) refl) in
      (
        keys,
        request-Sound render source keys _ _ _ _ _ _
            (cell-Sound render source keys _ _ _ _ _ _ h c _ (own.1, rw (own.2, ← own.0) right)) i _
            (own, right) tt,
      )
  Step-IsSound {s} (spawn i d m c e f g) (keys, h) =
      let own = rw e at (h.asking i) in
      let worker = job-Sound render source keys _ _ _ _ _ _ h i (active d m) (own.0) (rw e tt) in
      (
        keys,
        request-Sound render source keys _ _ _ _ _ _ worker i _ own
            (rw (update_here s.jobs i (active d m)) refl),
      )
  Step-IsSound {s} (finish i d m e) (keys, h) =
      (keys, finish-Sound render source keys _ _ _ _ _ _ h i d m e)
  Step-IsSound {s} (panic i d m e) (keys, h) =
      let link =
        Linked-done render source (s.requests i) d m _ (rw e at (h.linked i)) (inr (inr refl)) in
      (keys, job-Sound render source keys _ _ _ _ _ _ h i _ tt link)
  Step-IsSound {s} (collect i d m c r e f) (keys, h) =
      let own = rw e at (h.asking i) in
      let right = rw (e, f) at (h.linked i) in
      (
        keys,
        request-Sound render source keys _ _ _ _ _ _
            (cell-Sound render source keys _ _ _ _ _ _ h c _ (own.1, rw (own.2, ← own.0) right)) i _
            (own, right) tt,
      )
  Step-IsSound {s} (leave i d m c r e) (keys, h) =
      let own = rw e at (h.asking i) in
      (
        keys,
        request-Sound render source keys _ _ _ _ _ _
            (leave-Sound render source keys _ _ _ _ _ _ h d c) i _ (own.1) tt,
      )
  Step-IsSound {s} (cancel_missed i d m e) (keys, h) =
      (keys, request-Sound render source keys _ _ _ _ _ _ h i cancelled tt tt)
  Step-IsSound {s} (cancel_joined i d m c e) (keys, h) =
      (keys, request-Sound render source keys _ _ _ _ _ _ h i cancelled tt tt)
  Step-IsSound {s} (cancel_queued i d m c e) (keys, h) = (
    keys,
    request-Sound render source keys _ _ _ _ _ _
        (give_up-Sound render source keys _ _ _ _ _ _ h c i) i cancelled tt tt,
  )
  Step-IsSound {s} (cancel_rendering i d m c e) (keys, h) = (
    keys,
    request-Sound render source keys _ _ _ _ _ _
        (give_up-Sound render source keys _ _ _ _ _ _ h c i) i cancelled tt tt,
  )
  Step-IsSound {s} (cancel_served i d m c r e) (keys, h) =
      (keys, request-Sound render source keys _ _ _ _ _ _ h i cancelled tt tt)

  Reach-IsSound : (s : Flights) → Reach render source s → IsSound s
  unfolding IsSound
  Reach-IsSound s start = (
    λ c. [],
    record {
      counted = empty-IsCounted;
      faithful = unfold get lookup in λ d v k. cc;
      flying = λ d c k. cc;
      filling_ = λ c. tt;
      asking = λ i. tt;
      working = λ i. tt;
      linked = λ i. tt;
    },
  )
  Reach-IsSound s (step reached next) = Step-IsSound next (Reach-IsSound _ reached)

  -- However requests are interleaved, cancelled or left by panicking tasks, if the text of each is the
  -- one that its digest stands for: a request that has returned has the rendering of its own text, or
  -- was told that this rendering is larger than 8 MiB, or that a task failed; and every entry of the
  -- cache is the rendering of the text that its digest stands for, in a cache within its limits.
  pub render_cached-Right :
      (s : Flights)
      → Reach render source s
      → ((i : ℕ) (digest markdown : Text) (r : Rendering)
          → s.requests i ≡ returned digest markdown r
          → Right render source markdown r)
        × IsCounted s.cache
        × IsFaithful render (λ digest. render (source digest)) s.cache
  unfolding IsSound
  render_cached-Right s reached =
      let h = (Reach-IsSound s reached).1 in
      (λ i digest markdown r e. rw e at (h.asking i), h.counted, h.faithful)
