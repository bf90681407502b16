-- ===== src/Markdown/Events.antt =====
-- `safe_event` and `nested_heading` of src/markdown.rs. `Event` has the events of the crate
-- `pulldown_cmark` that the code tells apart, and `other` for each one that it passes on.
use aperip_nomos.Prelude.{ℕ, ◌≡◌, ◌≤◌, arith, Option, none, some}
use aperip_nomos.Text.{Text}

pub data HeadingLevel : Type 0 where
  h1 h2 h3 h4 h5 h6 : HeadingLevel

pub data Event : Type 0 where
  html : Text → Event
  inline_html : Text → Event
  text : Text → Event
  start_heading : HeadingLevel → Event
  end_heading : HeadingLevel → Event
  start_image : Event
  end_image : Event
  other : ℕ → Event

unfoldable pub nested_heading : HeadingLevel → HeadingLevel
nested_heading h1 = h2
nested_heading h2 = h3
nested_heading h3 = h4
nested_heading h4 = h5
nested_heading h5 = h6
nested_heading h6 = h6

unfoldable pub safe_event : Event → Option Event
safe_event (html source) = some (text source)
safe_event (inline_html source) = some (text source)
safe_event (text source) = some (text source)
safe_event (start_heading level) = some (start_heading (nested_heading level))
safe_event (end_heading level) = some (end_heading (nested_heading level))
safe_event start_image = none
safe_event end_image = none
safe_event (other n) = some (other n)

-- the number in a heading's tag
abbrev pub depth : HeadingLevel → ℕ
depth h1 = 1
depth h2 = 2
depth h3 = 3
depth h4 = 4
depth h5 = 5
depth h6 = 6

-- an event that brings in no HTML, no image and no heading of the page's own level
abbrev pub IsSafe : Event → Type 0
IsSafe (html source) = ⊥
IsSafe (inline_html source) = ⊥
IsSafe (text source) = Unit
IsSafe (start_heading level) = 2 ≤ depth level
IsSafe (end_heading level) = 2 ≤ depth level
IsSafe start_image = ⊥
IsSafe end_image = ⊥
IsSafe (other n) = Unit

nested_heading-low : (level : HeadingLevel) → 2 ≤ depth (nested_heading level)
unfolding nested_heading
nested_heading-low h1 = omega arith
nested_heading-low h2 = omega arith
nested_heading-low h3 = omega arith
nested_heading-low h4 = omega arith
nested_heading-low h5 = omega arith
nested_heading-low h6 = omega arith

kept : (a b : Event) → IsSafe a → some a ≡ some b → IsSafe b
kept a b safe e = let same : a ≡ b = cc in rw (← same) safe

-- An event that `safe_event` keeps is no HTML, no image, and no heading above the second level.
pub safe_event-IsSafe : (event result : Event) → safe_event event ≡ some result → IsSafe result
unfolding safe_event
safe_event-IsSafe (html source) result e = kept _ result tt e
safe_event-IsSafe (inline_html source) result e = kept _ result tt e
safe_event-IsSafe (text source) result e = kept _ result tt e
safe_event-IsSafe (start_heading level) result e = kept _ result (nested_heading-low level) e
safe_event-IsSafe (end_heading level) result e = kept _ result (nested_heading-low level) e
safe_event-IsSafe start_image result e = cc
safe_event-IsSafe end_image result e = cc
safe_event-IsSafe (other n) result e = kept _ result tt e
