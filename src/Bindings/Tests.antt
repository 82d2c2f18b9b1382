-- ===== src/Bindings/Tests.antt =====
-- Events of a restoration.
use automated_cross_contract.Prelude.{ℕ, ◌≡◌, refl, some, List, [], ◌∷◌, String}
use automated_cross_contract.Bindings.{
  RestorationEvent, checking, executing, needs_restore, restored, error, initial_restoration_slice,
  zustand_after, redux_after,
}
use automated_cross_contract.Bindings.Agree.{history, redux_after-history}

abbrev events : List (RestorationEvent String ℕ)
events =
    checking ∷ needs_restore ("key" ∷ []) ∷ executing ∷ error "lost" ∷ executing ∷ restored 1 ∷ []

keeps_the_error : (redux_after events initial_restoration_slice).error ≡ some "lost"
unfolding redux_after
keeps_the_error = refl

redux_after-history_example :
    (redux_after events initial_restoration_slice ≡ history initial_restoration_slice events)
    × (zustand_after events initial_restoration_slice ≡ history initial_restoration_slice events)
redux_after-history_example = redux_after-history events
