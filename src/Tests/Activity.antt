-- ===== src/Tests/Activity.antt =====
-- The activity of the dispatcher on concrete works.
use tunnel_client.Base.{refl, true, false, some, List, [], ◌∷◌, arith}
use tunnel_client.Activity.{new_activity_health}
use tunnel_client.Activity.Slots.{Event, starts_at, ends_at, InFlight, after}
use tunnel_client.Activity.Tracking.{IsTracked, after-IsTracked}

-- One slot more than the limit, and a work that starts when none is free.
abbrev events : List Event
events = starts_at 9 ∷ ends_at 1 8 true false ∷ starts_at 7 ∷ starts_at 6 ∷ starts_at 5 ∷ []

abbrev idle : InFlight
idle = record { health = new_activity_health (some 1); works = [] }

after-IsTracked_example : IsTracked (after events idle).health (after events idle).works
unfolding new_activity_health
after-IsTracked_example = after-IsTracked events idle refl refl (omega arith) (ground arith)
