-- ===== src/Tests/Flights.antt =====
-- Two requests for one digest: the second waits for the rendering of the first.
use aperip_nomos.Prelude.{ℕ, ◌+◌, ◌≤◌, ◌≡◌, refl, [], none}
use aperip_nomos.Prelude.Family.{total}
use aperip_nomos.Prelude.Result.{ok}
use aperip_nomos.Text.{Text, text_eq}
use aperip_nomos.Map.{lookup, contains_key, remove}
use aperip_nomos.Markdown.{get, put, saturating_add, is_full, make_room, store, insert, render_now}
use aperip_nomos.Markdown.Room.{IsCounted}
use aperip_nomos.Markdown.Contents.{IsFaithful}
use aperip_nomos.Markdown.Flights.{
  render_limit, Rendering, joined, returned, Flights, miss, join, begin, read, acquire, spawn,
  finish, collect, leave, Reach, start, step,
}
use aperip_nomos.Markdown.Flights.Permits.{held, renderings-bound}
use aperip_nomos.Markdown.Flights.Sound.{Right}
use aperip_nomos.Markdown.Flights.Renderings.{render_cached-Right}
use aperip_nomos.Tests.Markdown.{key, page, doubled}

abbrev source : Text → Text
source digest = page

unfoldable cache_program : Unit {0}
unfolding text_eq lookup contains_key remove get put saturating_add is_full make_room store insert
    render_now
cache_program = tt

abbrev Run : Type 0
Run = (s : Flights) × Reach doubled source s

no_entry : get (record { entries = []; order = []; bytes = 0 }) key ≡ none
unfolding cache_program
no_entry = refl

abbrev both_joined : Run
both_joined = (
  _,
  step
      (step
        (step (step start (miss 0 key page refl refl no_entry))
          (miss 1 key page refl refl no_entry))
        (join 0 key page refl))
      (join 1 key page refl),
)

abbrev started : Run
started = (
  _,
  step (step (step both_joined.1 (begin 0 key page 0 refl refl)) (acquire 0 key page 0 1 refl refl))
      (spawn 0 key page 0 refl refl no_entry),
)

abbrev finished : Run
finished = (
  _,
  step (step started.1 (finish 0 key page refl))
      (collect 0 key page 0 (render_now doubled key page started.0.cache).0 refl refl),
)

second_joined : finished.0.requests 1 ≡ joined key page 0
unfolding cache_program
second_joined = refl

abbrev both_served : Run
both_served = (
  _,
  step (step (step finished.1 (read 1 key page 0 _ second_joined refl)) (leave 1 key page 0 _ refl))
      (leave 0 key page 0 _ refl),
)

renderings-bound_example :
    total (held started.0.requests started.0.jobs) 2 + started.0.permits ≤ render_limit
renderings-bound_example = renderings-bound doubled source started.0 started.1 2

render_cached-Right_example :
    ((i : ℕ) (digest markdown : Text) (r : Rendering)
      → both_served.0.requests i ≡ returned digest markdown r
      → Right doubled source markdown r)
    × IsCounted both_served.0.cache
    × IsFaithful doubled (λ digest. doubled (source digest)) both_served.0.cache
render_cached-Right_example = render_cached-Right doubled source both_served.0 both_served.1

-- the second request has the rendering that the first one made
second_returned : both_served.0.requests 1 ≡ returned key page (ok (doubled page))
unfolding cache_program
second_returned = refl
