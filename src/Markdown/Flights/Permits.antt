-- ===== src/Markdown/Flights/Permits.antt =====
-- The limit of src/markdown.rs on renderings that run at once.
use aperip_nomos.Prelude.{ℕ, zero, suc, ◌+◌, ◌≤◌, ◌≡◌, refl, arith}
use aperip_nomos.Prelude.Family.{update, update_here, update_there, total, total_bound}
use aperip_nomos.Text.{Text}
use aperip_nomos.Markdown.Flights.{
  render_limit, Request, idle, missed, joined, queued, permitted, rendering, served, returned,
  cancelled, Job, unborn, active, done, Flights, Step, find_cached, miss, join, begin, read,
  acquire, find_again, spawn, finish, panic, collect, leave, cancel_missed, cancel_joined,
  cancel_queued, cancel_rendering, cancel_served, Reach, start, step,
}

-- the permit of a request that has not yet given it to its blocking task
abbrev pub request_permits : Request → ℕ
request_permits idle = 0
request_permits (missed digest markdown) = 0
request_permits (joined digest markdown c) = 0
request_permits (queued digest markdown c) = 0
request_permits (permitted digest markdown c) = 1
request_permits (rendering digest markdown c) = 0
request_permits (served digest markdown c r) = 0
request_permits (returned digest markdown r) = 0
request_permits cancelled = 0

-- the permit of a blocking task that runs
abbrev pub job_permits : Job → ℕ
job_permits unborn = 0
job_permits (active digest markdown) = 1
job_permits (done r) = 0

abbrev pub held : (ℕ → Request) → (ℕ → Job) → ℕ → ℕ
held requests jobs i = request_permits (requests i) + job_permits (jobs i)

-- the permits of the first `n` requests and of their tasks, with those that are free
abbrev Limited : (ℕ → Request) → (ℕ → Job) → ℕ → Type 0
Limited requests jobs free = (n : ℕ) → total (held requests jobs) n + free ≤ render_limit

request_step :
    (requests : ℕ → Request) (jobs : ℕ → Job) (free free' : ℕ) (i : ℕ) (r r' : Request)
    → requests i ≡ r
    → request_permits r' + free' ≡ request_permits r + free
    → Limited requests jobs free
    → Limited (update requests i r') jobs free'
request_step requests jobs free free' i r r' e same h =
    total_bound (held requests jobs) (held (update requests i r') jobs) i free free' render_limit
      (λ j apart. rw (update_there requests i j r' apart) refl)
      (rw (update_here requests i r', e) (omega (arith, same))) h

job_step :
    (requests : ℕ → Request) (jobs : ℕ → Job) (free free' : ℕ) (i : ℕ) (b b' : Job)
    → jobs i ≡ b
    → job_permits b' + free' ≡ job_permits b + free
    → Limited requests jobs free
    → Limited requests (update jobs i b') free'
job_step requests jobs free free' i b b' e same h =
    total_bound (held requests jobs) (held requests (update jobs i b')) i free free' render_limit
      (λ j apart. rw (update_there jobs i j b' apart) refl)
      (rw (update_here jobs i b', e) (omega (arith, same))) h

-- a permit goes from a request to its task
spawn_step :
    (requests : ℕ → Request) (jobs : ℕ → Job) (free : ℕ) (i : ℕ) (r r' : Request) (b b' : Job)
    → requests i ≡ r
    → jobs i ≡ b
    → request_permits r' + job_permits b' ≡ request_permits r + job_permits b
    → Limited requests jobs free
    → Limited (update requests i r') (update jobs i b') free
spawn_step requests jobs free i r r' b b' e e' same h =
    total_bound (held requests jobs) (held (update requests i r') (update jobs i b')) i free free
      render_limit
      (λ j apart. rw (update_there requests i j r' apart, update_there jobs i j b' apart) refl)
      (rw (update_here requests i r', update_here jobs i b', e, e') (omega (arith, same))) h

total_idle : (n : ℕ) → total (held (λ i. idle) (λ i. unborn)) n ≡ 0
total_idle zero = refl
total_idle (suc n) = omega (arith, total_idle n)

module _ (render source : Text → Text) where
  IsLimited : Flights → Type 0
  IsLimited s = Limited s.requests s.jobs s.permits

  Step-IsLimited : {s t : Flights} → Step render source s t → IsLimited s → IsLimited t
  unfolding IsLimited
  Step-IsLimited {s} (find_cached i d m v e same hit) h =
      request_step s.requests s.jobs s.permits s.permits i _ _ e refl h
  Step-IsLimited {s} (miss i d m e same no_hit) h =
      request_step s.requests s.jobs s.permits s.permits i _ _ e refl h
  Step-IsLimited {s} (join i d m e) h =
      request_step s.requests s.jobs s.permits s.permits i _ _ e refl h
  Step-IsLimited {s} (begin i d m c e f) h =
      request_step s.requests s.jobs s.permits s.permits i _ _ e refl h
  Step-IsLimited {s} (read i d m c r e f) h =
      request_step s.requests s.jobs s.permits s.permits i _ _ e refl h
  Step-IsLimited {s} (acquire i d m c free e f) h =
      request_step s.requests s.jobs s.permits free i _ _ e (omega (arith, f)) h
  Step-IsLimited {s} (find_again i d m c v e f) h =
      request_step s.requests s.jobs s.permits (suc s.permits) i _ _ e (omega arith) h
  Step-IsLimited {s} (spawn i d m c e f g) h =
      spawn_step s.requests s.jobs s.permits i _ _ _ _ e f refl h
  Step-IsLimited {s} (finish i d m e) h =
      job_step s.requests s.jobs s.permits (suc s.permits) i _ _ e (omega arith) h
  Step-IsLimited {s} (panic i d m e) h =
      job_step s.requests s.jobs s.permits (suc s.permits) i _ _ e (omega arith) h
  Step-IsLimited {s} (collect i d m c r e f) h =
      request_step s.requests s.jobs s.permits s.permits i _ _ e refl h
  Step-IsLimited {s} (leave i d m c r e) h =
      request_step s.requests s.jobs s.permits s.permits i _ _ e refl h
  Step-IsLimited {s} (cancel_missed i d m e) h =
      request_step s.requests s.jobs s.permits s.permits i _ _ e refl h
  Step-IsLimited {s} (cancel_joined i d m c e) h =
      request_step s.requests s.jobs s.permits s.permits i _ _ e refl h
  Step-IsLimited {s} (cancel_queued i d m c e) h =
      request_step s.requests s.jobs s.permits s.permits i _ _ e refl h
  Step-IsLimited {s} (cancel_rendering i d m c e) h =
      request_step s.requests s.jobs s.permits s.permits i _ _ e refl h
  Step-IsLimited {s} (cancel_served i d m c r e) h =
      request_step s.requests s.jobs s.permits s.permits i _ _ e refl h

  -- However requests for renderings are interleaved, cancelled or left to panicking tasks: the permits
  -- of the requests that are about to render, and of the blocking tasks that run, are two at most with
  -- those that are free.
  pub renderings-bound :
      (s : Flights)
      → Reach render source s
      → (n : ℕ) → total (held s.requests s.jobs) n + s.permits ≤ render_limit
  unfolding IsLimited
  renderings-bound s start = λ n. omega (arith, total_idle n)
  renderings-bound s (step reached next) = Step-IsLimited next (renderings-bound _ reached)
