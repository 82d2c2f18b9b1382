-- ===== src/Bindings.antt =====
-- packages/react/src/middleware.ts (`reduceRestoration`) and packages/react/src/redux.ts (`eventToAction`,
-- `restorationReducer`): the restoration state that framework stores keep. Archived keys and results are parameters.
mod Agree
mod Tests
use automated_cross_contract.Prelude.{Bool, true, false, Option, none, some, List, [], ◌∷◌, String}

pub data RestorationEvent {ℓ} (K R : Type ℓ) : Type ℓ where
  checking executing reset : RestorationEvent K R
  needs_restore : List K → RestorationEvent K R
  restored : R → RestorationEvent K R
  error : String → RestorationEvent K R

pub record RestorationSlice {ℓ} (K R : Type ℓ) : Type ℓ where
  pub is_checking : Bool
  pub is_executing : Bool
  pub needs_restore : Bool
  pub archived_keys : List K
  pub last_result : Option R
  pub error : Option String

-- the actions of the Redux store, with their payloads
pub data RestorationAction {ℓ} (K R : Type ℓ) : Type ℓ where
  restoration_checking restoration_executing restoration_reset : RestorationAction K R
  restoration_needs_restore : List K → RestorationAction K R
  restoration_restored : R → RestorationAction K R
  restoration_error : String → RestorationAction K R

module _ {ℓ} {K R : Type ℓ} where
  abbrev pub initial_restoration_slice : RestorationSlice K R
  initial_restoration_slice = record {
    is_checking = false;
    is_executing = false;
    needs_restore = false;
    archived_keys = [];
    last_result = none;
    error = none;
  }

  unfoldable pub reduce_restoration :
      RestorationSlice K R → RestorationEvent K R → RestorationSlice K R
  reduce_restoration state checking = record state { is_checking = true; error = none }
  reduce_restoration state (needs_restore keys) = record state {
    is_checking = false;
    needs_restore = true;
    archived_keys = keys;
  }
  reduce_restoration state executing = record state { is_executing = true }
  reduce_restoration state (restored result) = record state {
    is_executing = false;
    needs_restore = false;
    last_result = some result;
  }
  reduce_restoration state (error e) = record state {
    is_checking = false;
    is_executing = false;
    error = some e;
  }
  reduce_restoration state reset = initial_restoration_slice

  unfoldable pub event_to_action : RestorationEvent K R → RestorationAction K R
  event_to_action checking = restoration_checking
  event_to_action (needs_restore keys) = restoration_needs_restore keys
  event_to_action executing = restoration_executing
  event_to_action (restored result) = restoration_restored result
  event_to_action (error e) = restoration_error e
  event_to_action reset = restoration_reset

  unfoldable pub restoration_reducer :
      RestorationSlice K R → RestorationAction K R → RestorationSlice K R
  restoration_reducer state restoration_checking = record state { is_checking = true; error = none }
  restoration_reducer state (restoration_needs_restore keys) = record state {
    is_checking = false;
    needs_restore = true;
    archived_keys = keys;
  }
  restoration_reducer state restoration_executing = record state { is_executing = true }
  restoration_reducer state (restoration_restored result) = record state {
    is_executing = false;
    needs_restore = false;
    last_result = some result;
  }
  restoration_reducer state (restoration_error e) = record state {
    is_checking = false;
    is_executing = false;
    error = some e;
  }
  restoration_reducer state restoration_reset = initial_restoration_slice

  -- the slice of the Zustand store behind the events of the bus
  pub zustand_after : List (RestorationEvent K R) → RestorationSlice K R → RestorationSlice K R
  unfolding reduce_restoration
  zustand_after [] state = state
  zustand_after (e ∷ es) state = zustand_after es (reduce_restoration state e)

  -- the state of the Redux store, into which `reduxMiddleware` dispatches
  pub redux_after : List (RestorationEvent K R) → RestorationSlice K R → RestorationSlice K R
  unfolding restoration_reducer event_to_action
  redux_after [] state = state
  redux_after (e ∷ es) state = redux_after es (restoration_reducer state (event_to_action e))
