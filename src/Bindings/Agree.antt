-- ===== src/Bindings/Agree.antt =====
-- The stores of packages/react/src/middleware.ts and packages/react/src/redux.ts behind the same events.
use automated_cross_contract.Prelude.{
  ◌≡◌, refl, ◌∙◌, ap, Bool, true, false, Option, none, some, List, [], ◌∷◌, String, or_else,
}
use automated_cross_contract.Bindings.{
  RestorationEvent, checking, executing, reset, needs_restore, restored, error, RestorationSlice,
  initial_restoration_slice, reduce_restoration, event_to_action, restoration_reducer,
  zustand_after, redux_after,
}

module _ {ℓ} {K R : Type ℓ} where
  same_step :
      (e : RestorationEvent K R) (state : RestorationSlice K R)
      → restoration_reducer state (event_to_action e) ≡ reduce_restoration state e
  unfolding reduce_restoration event_to_action restoration_reducer
  same_step checking state = refl
  same_step executing state = refl
  same_step reset state = refl
  same_step (needs_restore keys) state = refl
  same_step (restored r) state = refl
  same_step (error e) state = refl

  same_run :
      (es : List (RestorationEvent K R)) (state : RestorationSlice K R)
      → redux_after es state ≡ zustand_after es state
  unfolding redux_after zustand_after
  same_run [] state = refl
  same_run (e ∷ es) state =
      ap (redux_after es) (same_step e state) ∙ same_run es (reduce_restoration state e)

  abbrev pub says_checking : RestorationEvent K R → Option Bool
  says_checking checking = some true
  says_checking (needs_restore keys) = some false
  says_checking (error e) = some false
  says_checking reset = some false
  says_checking _ = none

  abbrev pub says_executing : RestorationEvent K R → Option Bool
  says_executing executing = some true
  says_executing (restored r) = some false
  says_executing (error e) = some false
  says_executing reset = some false
  says_executing _ = none

  abbrev pub says_needed : RestorationEvent K R → Option Bool
  says_needed (needs_restore keys) = some true
  says_needed (restored r) = some false
  says_needed reset = some false
  says_needed _ = none

  abbrev pub says_keys : RestorationEvent K R → Option (List K)
  says_keys (needs_restore keys) = some keys
  says_keys reset = some []
  says_keys _ = none

  abbrev pub says_result : RestorationEvent K R → Option (Option R)
  says_result (restored r) = some (some r)
  says_result reset = some none
  says_result _ = none

  abbrev pub says_error : RestorationEvent K R → Option (Option String)
  says_error checking = some none
  says_error (error e) = some (some e)
  says_error reset = some none
  says_error _ = none

  -- what the last of the events that speak of it says
  abbrev pub last_said {κ} :
      {A : Type κ} → (RestorationEvent K R → Option A) → A → List (RestorationEvent K R) → A
  last_said says before [] = before
  last_said says before (e ∷ es) = last_said says (or_else (says e) before) es

  abbrev pub history : RestorationSlice K R → List (RestorationEvent K R) → RestorationSlice K R
  history state es = record {
    is_checking = last_said says_checking state.is_checking es;
    is_executing = last_said says_executing state.is_executing es;
    needs_restore = last_said says_needed state.needs_restore es;
    archived_keys = last_said says_keys state.archived_keys es;
    last_result = last_said says_result state.last_result es;
    error = last_said says_error state.error es;
  }

  zustand_after-history :
      (es : List (RestorationEvent K R)) (state : RestorationSlice K R)
      → zustand_after es state ≡ history state es
  unfolding zustand_after reduce_restoration
  zustand_after-history [] state = refl
  zustand_after-history (checking ∷ es) state = zustand_after-history es _
  zustand_after-history (executing ∷ es) state = zustand_after-history es _
  zustand_after-history (reset ∷ es) state = zustand_after-history es _
  zustand_after-history (needs_restore keys ∷ es) state = zustand_after-history es _
  zustand_after-history (restored r ∷ es) state = zustand_after-history es _
  zustand_after-history (error e ∷ es) state = zustand_after-history es _

  -- Behind any events both stores hold the same state, and each part of it is what the last event that speaks of it
  -- says: whether a check or an execution is under way, whether entries must be restored, the archived keys, the
  -- last result and the error.
  pub redux_after-history :
      (es : List (RestorationEvent K R))
      → (redux_after es initial_restoration_slice ≡ history initial_restoration_slice es)
        × (zustand_after es initial_restoration_slice ≡ history initial_restoration_slice es)
  redux_after-history es =
      let z = zustand_after-history es initial_restoration_slice in
      (same_run es initial_restoration_slice ∙ z, z)
