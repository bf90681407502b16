-- ===== src/Markdown/Flights/Changes.antt =====
-- Each change that `render_cached` of src/markdown.rs makes keeps what its requests rely on.
use aperip_nomos.Prelude.{
  ℕ, suc, ◌==◌, ==_iff, ◌≡◌, sym, ap, ◌∙◌, inl, inr, Option, some, Option-cases, Bool-cases, arith,
}
use aperip_nomos.Prelude.Family.{update, update_all, update_here, update_there}
use aperip_nomos.Text.{Text, text_eq}
use aperip_nomos.Text.Equality.{text_eq_iff}
use aperip_nomos.Markdown.{RenderCache, render_now}
use aperip_nomos.Markdown.Contents.{render_now-Rendered}
use aperip_nomos.Markdown.Flights.{
  Cell, empty, filling, filled, Request, joined, cancelled, Job, active, done, set_flight,
  leave_flight, give_up,
}
use aperip_nomos.Markdown.Flights.Sound.{
  Right, IsAt, RequestSound, CellSound, JobSound, Linked, Linked-done, later_request, later_cell,
  Sound,
}

module _ (render source : Text → Text) where
  module _ (keys : ℕ → Text) (cache : RenderCache) (flights : Text → Option ℕ) (cells : ℕ → Cell)
      (made : ℕ) (requests : ℕ → Request) (jobs : ℕ → Job)
      (h : Sound render source keys cache flights cells made requests jobs) where
    pub request-Sound :
        (i : ℕ) (r : Request)
        → RequestSound render source keys made r
        → Linked render source r (jobs i)
        → Sound render source keys cache flights cells made (update requests i r) jobs
    request-Sound i r good link = record {
      counted = h.counted;
      faithful = h.faithful;
      flying = h.flying;
      filling_ = h.filling_;
      asking = update_all (RequestSound render source keys made) requests i r h.asking good;
      working = h.working;
      linked = λ j. elim (Bool-cases (i == j)) [
        | inl same ↦ rw (same, ← (==_iff i j).0 same) link
        | inr other ↦ rw other (h.linked j)
      ];
    }

    pub cell-Sound :
        (c : ℕ) (x : Cell)
        → CellSound render source keys made c x
        → Sound render source keys cache flights (update cells c x) made requests jobs
    cell-Sound c x good = record {
      counted = h.counted;
      faithful = h.faithful;
      flying = h.flying;
      filling_ = λ d. elim (Bool-cases (c == d)) [
        | inl same ↦ rw (same, ← (==_iff c d).0 same) good
        | inr other ↦ rw other (h.filling_ d)
      ];
      asking = h.asking;
      working = h.working;
      linked = h.linked;
    }

    pub job-Sound :
        (i : ℕ) (b : Job)
        → JobSound render source b
        → Linked render source (requests i) b
        → Sound render source keys cache flights cells made requests (update jobs i b)
    job-Sound i b good link = record {
      counted = h.counted;
      faithful = h.faithful;
      flying = h.flying;
      filling_ = h.filling_;
      asking = h.asking;
      working = update_all (JobSound render source) jobs i b h.working good;
      linked = λ j. elim (Bool-cases (i == j)) [
        | inl same ↦ rw (same, ← (==_iff i j).0 same) link
        | inr other ↦ rw other (h.linked j)
      ];
    }

    -- a blocking task ends with what it rendered
    pub finish-Sound :
        (i : ℕ) (d m : Text)
        → jobs i ≡ active d m
        → Sound render source keys
            (render_now render d m cache).1
            flights
            cells
            made
            requests
            (update jobs i (done (render_now render d m cache).0))
    finish-Sound i d m e =
        let own = rw e at (h.working i) in
        let k =
          render_now-Rendered render (λ t. render (source t)) d m cache h.counted h.faithful
            (ap render (sym own)) in
        let right : Right render source m (render_now render d m cache).0 = elim (k.2) [
          | inl made_ ↦ inl made_
          | inr large ↦ inr (inl large)
        ] in
        let ended =
          job-Sound i (done (render_now render d m cache).0) tt
            (Linked-done render source (requests i) d m _ (rw e at (h.linked i)) right) in
        record {
          counted = k.1;
          faithful = k.0;
          flying = ended.flying;
          filling_ = ended.filling_;
          asking = ended.asking;
          working = ended.working;
          linked = ended.linked;
        }

    -- a flight that ends
    pub leave-Sound :
        (d : Text) (c : ℕ)
        → Sound render source keys cache (leave_flight flights d c) cells made requests jobs
    leave-Sound d c = record {
      counted = h.counted;
      faithful = h.faithful;
      flying = λ e f k. h.flying e f (fewer e f k);
      filling_ = h.filling_;
      asking = h.asking;
      working = h.working;
      linked = h.linked;
    }
      where
        fewer : (e : Text) (f : ℕ) → leave_flight flights d c e ≡ some f → flights e ≡ some f
        fewer e f k = elim (Option-cases (flights d)) [
          | inl absent ↦ rw (absent, leave_flight) at k
          | inr (current, there) ↦ elim (Bool-cases (current == c)) [
            | inr other ↦ rw (there, leave_flight, other) at k
            | inl same ↦ elim (Bool-cases (text_eq d e)) [
              | inl here ↦ let l = rw (there, leave_flight, same, here) at k in cc
              | inr apart ↦ rw (there, leave_flight, same, apart) at k
            ]
          ]
        ]

    -- a cell that is given up
    pub give_up-Sound :
        (c i : ℕ)
        → Sound render source keys cache flights
            (update cells c (give_up (cells c) i))
            made
            requests
            jobs
    give_up-Sound c i = cell-Sound c (give_up (cells c) i) (given_up (cells c) (h.filling_ c))
      where
        given_up :
            (x : Cell)
            → CellSound render source keys made c x
            → CellSound render source keys made c (give_up x i)
        given_up empty k = tt
        given_up (filling j) k = elim (Bool-cases (i == j)) [
          | inl same ↦ rw same tt
          | inr other ↦ rw other tt
        ]
        given_up (filled r) k = k

    -- what a request relies on, when its digest has a flight or gets one
    pub old-Sound :
        (d m : Text) (i c : ℕ)
        → m ≡ source d
        → flights d ≡ some c
        → Sound render source keys cache
            (set_flight flights d (some c))
            cells
            made
            (update requests i (joined d m c))
            jobs
    old-Sound d m i c own there =
        let k = h.flying d c there in
        let asked = request-Sound i (joined d m c) (own, k.0, k.1) tt in
        record {
          counted = h.counted;
          faithful = h.faithful;
          flying = λ e f l. elim (Bool-cases (text_eq d e)) [
            | inl here ↦
                let same = (text_eq_iff d e).0 here in
                let is_c = rw here at l in let g : c ≡ f = cc in rw (← g, ← same) k
            | inr apart ↦ h.flying e f (rw apart at l)
          ];
          filling_ = h.filling_;
          asking = asked.asking;
          working = asked.working;
          linked = asked.linked;
        }

    pub new-Sound :
        (d m : Text) (i : ℕ)
        → m ≡ source d
        → Sound render source
            (update keys made d)
            cache
            (set_flight flights d (some made))
            cells
            (suc made)
            (update requests i (joined d m made))
            jobs
    new-Sound d m i own =
        let asked = request-Sound i cancelled tt tt in
        let at_new : IsAt render source (update keys made d) (suc made) d m made =
          (own, omega arith, update_here keys made d) in
        record {
          counted = h.counted;
          faithful = h.faithful;
          flying = λ e f l. elim (Bool-cases (text_eq d e)) [
            | inl here ↦
                let same = (text_eq_iff d e).0 here in
                let is_made = rw here at l in
                let g : made ≡ f = cc in rw (← g, ← same) (at_new.1, at_new.2)
            | inr apart ↦
                let k = h.flying e f (rw apart at l) in
                (omega (arith, k.0), update_there keys made f d (λ g. omega (arith, k.0)) ∙ k.1)
          ];
          filling_ = λ c. later_cell render source keys made d c (cells c) (h.filling_ c);
          asking =
              update_all (RequestSound render source (update keys made d) (suc made)) requests i
                (joined d m made)
                (λ j. later_request render source keys made d (requests j) (h.asking j)) at_new;
          working = h.working;
          linked = λ j. elim (Bool-cases (i == j)) [
            | inl same ↦ rw same tt
            | inr other ↦ rw other (h.linked j)
          ];
        }
