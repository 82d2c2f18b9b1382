-- ===== src/Sharing/Tests.antt =====
-- Submissions that are shared.
use automated_cross_contract.Prelude.{◌≡◌, refl, List, [], ◌∷◌}
use automated_cross_contract.Sharing.{none_yet, Event, submitted, settled, after_events}
use automated_cross_contract.Sharing.Exact.{IsShared, after_events-IsShared}

abbrev events : List Event
events = submitted "a" ∷ submitted "b" ∷ submitted "a" ∷ settled 0 ∷ submitted "a" ∷ []

two_run : (after_events events none_yet).pending ≡ (1, "b") ∷ (2, "a") ∷ []
unfolding after_events
two_run = refl

after_events-IsShared_example : IsShared (after_events events none_yet)
after_events-IsShared_example = after_events-IsShared events
