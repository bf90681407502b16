-- ===== src/Markdown/Flights.antt =====
-- `render_cached` of src/markdown.rs, called by any number of requests at once: they share one
-- rendering of a digest through a `OnceCell`, two renderings run at most, and a request may be cancelled
-- at each `await`. The locks, the cells, the semaphore and the pool of blocking tasks are crates: each
-- step does what happens between two points where another request may run.
pub mod Permits
pub mod Sound
pub mod Changes
pub mod Renderings
use aperip_nomos.Prelude.{
  ℕ, zero, suc, ◌+◌, ◌==◌, ◌≡◌, Bool, true, false, Option, none, some, if◌then◌else◌, [],
}
use aperip_nomos.Prelude.Family.{update}
use aperip_nomos.Prelude.Result.{Result, ok, err}
use aperip_nomos.Text.{Text, text_eq}
use aperip_nomos.Markdown.{RenderCache, MarkdownRenderError, worker_failed, get, render_now}

-- `RENDER_LIMIT`
abbrev pub render_limit : ℕ
render_limit = 2

abbrev pub Rendering : Type 0
Rendering = Result MarkdownRenderError Text

-- `RenderCell`: empty, with the request that fills it, or filled
pub data Cell : Type 0 where
  empty : Cell
  filling : ℕ → Cell
  filled : Rendering → Cell

-- A request: before its call; with nothing in the cache; with a cell; the one that fills it, before its
-- permit, with its permit, and with its blocking task; with the result; after its call.
pub data Request : Type 0 where
  idle : Request
  missed : Text → Text → Request
  joined : Text → Text → ℕ → Request
  queued : Text → Text → ℕ → Request
  permitted : Text → Text → ℕ → Request
  rendering : Text → Text → ℕ → Request
  served : Text → Text → ℕ → Rendering → Request
  returned : Text → Text → Rendering → Request
  cancelled : Request

-- the blocking task of a request, which holds its permit until it ends
pub data Job : Type 0 where
  unborn : Job
  active : Text → Text → Job
  done : Rendering → Job

pub record Flights : Type 0 where
  pub cache : RenderCache
  pub flights : Text → Option ℕ
  pub cells : ℕ → Cell
  pub made : ℕ
  pub permits : ℕ
  pub requests : ℕ → Request
  pub jobs : ℕ → Job

abbrev pub start_flights : Flights
start_flights = record {
  cache = record { entries = []; order = []; bytes = 0 };
  flights = λ digest. none;
  cells = λ c. empty;
  made = 0;
  permits = render_limit;
  requests = λ i. idle;
  jobs = λ i. unborn;
}

abbrev pub set_flight : (Text → Option ℕ) → Text → Option ℕ → Text → Option ℕ
set_flight flights digest o d = if text_eq digest d then o else flights d

-- `entry(key).or_insert_with(…)`
abbrev pub cell_of : Option ℕ → ℕ → ℕ
cell_of (some c) made = c
cell_of none made = made

abbrev pub made_after : Option ℕ → ℕ → ℕ
made_after (some c) made = made
made_after none made = suc made

abbrev pub join_flight : Flights → ℕ → Text → Text → Flights
join_flight s i digest markdown =
    let c = cell_of (s.flights digest) s.made in
    record s {
      flights = set_flight s.flights digest (some c);
      made = made_after (s.flights digest) s.made;
      requests = update s.requests i (joined digest markdown c);
    }

-- the entry is removed if it is still the one of this cell
abbrev pub leave_flight : (Text → Option ℕ) → Text → ℕ → Text → Option ℕ
leave_flight flights digest c = elim (flights digest) [
  | none ↦ flights
  | some current ↦ if current == c then set_flight flights digest none else flights
]

-- a cell whose filling is given up is empty again
abbrev pub give_up : Cell → ℕ → Cell
give_up empty i = empty
give_up (filling j) i = if i == j then empty else filling j
give_up (filled r) i = filled r

module _ (render : Text → Text) where
  -- the end of a blocking task, with its permit
  abbrev pub work : Flights → ℕ → Text → Text → Flights
  work s i digest markdown =
      let ran = render_now render digest markdown s.cache in
      record s { cache = ran.1; permits = suc s.permits; jobs = update s.jobs i (done ran.0) }

  -- the steps; `source` is the text that a digest stands for
  pub data Step (source : Text → Text) (s : Flights) : Flights → Type 0 where
    find_cached :
        (i : ℕ) (digest markdown rendered : Text)
        → s.requests i ≡ idle
        → markdown ≡ source digest
        → get s.cache digest ≡ some rendered
        → Step source s
            (record s { requests = update s.requests i (returned digest markdown (ok rendered)) })
    miss :
        (i : ℕ) (digest markdown : Text)
        → s.requests i ≡ idle
        → markdown ≡ source digest
        → get s.cache digest ≡ none
        → Step source s (record s { requests = update s.requests i (missed digest markdown) })
    join :
        (i : ℕ) (digest markdown : Text)
        → s.requests i ≡ missed digest markdown
        → Step source s (join_flight s i digest markdown)
    -- `get_or_init` on an empty cell
    begin :
        (i : ℕ) (digest markdown : Text) (c : ℕ)
        → s.requests i ≡ joined digest markdown c
        → s.cells c ≡ empty
        → Step source s (record s {
          cells = update s.cells c (filling i);
          requests = update s.requests i (queued digest markdown c);
        })
    -- `get_or_init` on a cell that is filled
    read :
        (i : ℕ) (digest markdown : Text) (c : ℕ) (r : Rendering)
        → s.requests i ≡ joined digest markdown c
        → s.cells c ≡ filled r
        → Step source s (record s { requests = update s.requests i (served digest markdown c r) })
    acquire :
        (i : ℕ) (digest markdown : Text) (c free : ℕ)
        → s.requests i ≡ queued digest markdown c
        → s.permits ≡ suc free
        → Step source s (record s {
          permits = free;
          requests = update s.requests i (permitted digest markdown c);
        })
    -- `render_once` finds the digest in the cache after all, and drops its permit
    find_again :
        (i : ℕ) (digest markdown : Text) (c : ℕ) (rendered : Text)
        → s.requests i ≡ permitted digest markdown c
        → get s.cache digest ≡ some rendered
        → Step source s (record s {
          cells = update s.cells c (filled (ok rendered));
          permits = suc s.permits;
          requests = update s.requests i (served digest markdown c (ok rendered));
        })
    -- The request has not had a task yet, and its permit goes to the task.
    spawn :
        (i : ℕ) (digest markdown : Text) (c : ℕ)
        → s.requests i ≡ permitted digest markdown c
        → s.jobs i ≡ unborn
        → get s.cache digest ≡ none
        → Step source s (record s {
          requests = update s.requests i (rendering digest markdown c);
          jobs = update s.jobs i (active digest markdown);
        })
    finish :
        (i : ℕ) (digest markdown : Text)
        → s.jobs i ≡ active digest markdown
        → Step source s (work s i digest markdown)
    -- the blocking task panics
    panic :
        (i : ℕ) (digest markdown : Text)
        → s.jobs i ≡ active digest markdown
        → Step source s (record s {
          permits = suc s.permits;
          jobs = update s.jobs i (done (err worker_failed));
        })
    collect :
        (i : ℕ) (digest markdown : Text) (c : ℕ) (r : Rendering)
        → s.requests i ≡ rendering digest markdown c
        → s.jobs i ≡ done r
        → Step source s (record s {
          cells = update s.cells c (filled r);
          requests = update s.requests i (served digest markdown c r);
        })
    leave :
        (i : ℕ) (digest markdown : Text) (c : ℕ) (r : Rendering)
        → s.requests i ≡ served digest markdown c r
        → Step source s (record s {
          flights = leave_flight s.flights digest c;
          requests = update s.requests i (returned digest markdown r);
        })
    -- a request that is dropped at an `await`; a blocking task goes on without it
    cancel_missed :
        (i : ℕ) (digest markdown : Text)
        → s.requests i ≡ missed digest markdown
        → Step source s (record s { requests = update s.requests i cancelled })
    cancel_joined :
        (i : ℕ) (digest markdown : Text) (c : ℕ)
        → s.requests i ≡ joined digest markdown c
        → Step source s (record s { requests = update s.requests i cancelled })
    cancel_queued :
        (i : ℕ) (digest markdown : Text) (c : ℕ)
        → s.requests i ≡ queued digest markdown c
        → Step source s (record s {
          cells = update s.cells c (give_up (s.cells c) i);
          requests = update s.requests i cancelled;
        })
    cancel_rendering :
        (i : ℕ) (digest markdown : Text) (c : ℕ)
        → s.requests i ≡ rendering digest markdown c
        → Step source s (record s {
          cells = update s.cells c (give_up (s.cells c) i);
          requests = update s.requests i cancelled;
        })
    cancel_served :
        (i : ℕ) (digest markdown : Text) (c : ℕ) (r : Rendering)
        → s.requests i ≡ served digest markdown c r
        → Step source s (record s { requests = update s.requests i cancelled })

  pub data Reach (source : Text → Text) : Flights → Type 0 where
    start : Reach source start_flights
    step : {s t : Flights} → Reach source s → Step source s t → Reach source t
