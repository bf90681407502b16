-- ===== src/Service/Watchdog.antt =====
-- The watchdog of src/main.rs gives up after three failures in a row, and only then.
use aperip_nomos.Prelude.{◌≡◌, refl, sym, ◌∙◌, Bool, true, false, not, ◌&&◌, ◌||◌, List, [], ◌∷◌}
use aperip_nomos.Service.{saturating_next, record_ping_result, watchdog}

-- some three pings in a row failed
unfoldable pub has_failed_thrice : List Bool → Bool
has_failed_thrice (a ∷ b ∷ c ∷ rest) = (not a && not b && not c) || has_failed_thrice (b ∷ c ∷ rest)
has_failed_thrice _ = false

-- a healthy ping is in no such row
healthy_first : (rest : List Bool) → has_failed_thrice (true ∷ rest) ≡ has_failed_thrice rest
unfolding has_failed_thrice
healthy_first [] = refl
healthy_first (a ∷ []) = refl
healthy_first (a ∷ b ∷ rest) = refl

healthy_second :
    (rest : List Bool) → has_failed_thrice (false ∷ true ∷ rest) ≡ has_failed_thrice rest
unfolding has_failed_thrice
healthy_second [] = refl
healthy_second (a ∷ rest) = healthy_first (a ∷ rest)

mutual
  unfolding watchdog record_ping_result saturating_next has_failed_thrice

  from_none : (pings : List Bool) → watchdog 0 pings ≡ has_failed_thrice pings
  from_none [] = refl
  from_none (true ∷ rest) = from_none rest ∙ sym (healthy_first rest)
  from_none (false ∷ rest) = from_one rest

  from_one : (pings : List Bool) → watchdog 1 pings ≡ has_failed_thrice (false ∷ pings)
  from_one [] = refl
  from_one (true ∷ rest) = from_none rest ∙ sym (healthy_second rest)
  from_one (false ∷ rest) = from_two rest

  from_two : (pings : List Bool) → watchdog 2 pings ≡ has_failed_thrice (false ∷ false ∷ pings)
  from_two [] = refl
  from_two (true ∷ rest) = from_none rest ∙ sym (healthy_second rest)
  from_two (false ∷ rest) = refl

-- For every sequence of pings, the watchdog has given up exactly when three of them failed in a row.
pub watchdog-has_failed_thrice : (pings : List Bool) → watchdog 0 pings ≡ has_failed_thrice pings
watchdog-has_failed_thrice = from_none
