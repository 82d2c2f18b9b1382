-- ===== src/Socket/Verdict.antt =====
-- How `wsWaitForTransaction`, packages/sdk/src/soroban-resurrect.ts, settles.
use automated_cross_contract.Prelude.{
  ℕ, ◌≡◌, refl, sym, ◌∙◌, Bool, true, false, Option, none, some, List, [], ◌∷◌, String,
  if◌then◌else◌, ◌==◌, string_Eq, Bool-cases, Option-cases, inl, inr, ◌⊎◌,
}
use automated_cross_contract.Submission.{Answer, resolved, rejected}
use automated_cross_contract.Socket.{
  Event, opened, errored, timed_out, went_silent, frame, closed, Wait, fresh, finish, timeout_error,
  silent_error, socket_error, close_error, failed_error, is_ours, on_message, step, run,
}

module _ (hash : String) (timeout_ms : ℕ) where
  -- What one event decides; `heard` tells that a notification for the hash has come.
  abbrev pub decision : Bool → Event → Option (Answer (Unit {0}))
  decision heard opened = none
  decision heard errored = some (rejected (socket_error hash timeout_ms))
  decision heard (closed code) = some (rejected (close_error hash timeout_ms code))
  decision heard timed_out = some (rejected (timeout_error hash timeout_ms))
  decision heard went_silent =
      if heard then none else some (rejected (silent_error hash timeout_ms))
  decision heard (frame none) = none
  decision heard (frame (some msg)) =
      if is_ours hash timeout_ms msg
      then (if msg.status == "SUCCESS"
          then some (resolved tt)
          else if msg.status == "FAILED"
          then some (rejected (failed_error hash timeout_ms msg.error))
          else none)
      else none

  abbrev pub hears : Bool → Event → Bool
  hears heard (frame (some msg)) = if is_ours hash timeout_ms msg then true else heard
  hears heard _ = heard

  -- The first event that decides.
  abbrev pub verdict : Bool → List Event → Option (Answer (Unit {0}))
  verdict heard [] = none
  verdict heard (e ∷ es) =
      let later = verdict (hears heard e) es in
      elim (decision heard e) [ some answer ↦ some answer | none ↦ later ]

  -- a wait that is not settled: both timers run, but that for silence only until a notification comes
  abbrev open_wait : Bool → Bool → Wait
  open_wait heard subscribed = record fresh {
    silent_drop_timer = if heard then false else true;
    subscribed = subscribed;
  }

  finish-settled :
      (answer other : Answer (Unit {0})) (w : Wait)
      → w.settled ≡ some answer
      → (finish other w).settled ≡ some answer
  unfolding finish
  finish-settled answer other w h = rw (h, finish) refl

  pub step-settled :
      (e : Event) (w : Wait) (answer : Answer (Unit {0}))
      → w.settled ≡ some answer
      → (step hash timeout_ms e w).settled ≡ some answer
  unfolding step on_message
  step-settled opened w answer h = h
  step-settled errored w answer h = finish-settled answer _ w h
  step-settled (closed code) w answer h = finish-settled answer _ w h
  step-settled timed_out w answer h = elim (Bool-cases w.timer) [
    | inl t ↦ rw t (finish-settled answer _ (record w { timer = false }) h)
    | inr t ↦ rw t h
  ]
  step-settled went_silent w answer h = elim (Bool-cases w.silent_drop_timer) [
    | inl t ↦ rw t (finish-settled answer _ (record w { silent_drop_timer = false }) h)
    | inr t ↦ rw t h
  ]
  step-settled (frame none) w answer h = h
  step-settled (frame (some msg)) w answer h =
      let heard : Wait = record w { silent_drop_timer = false } in
      elim (Bool-cases (is_ours hash timeout_ms msg)) [
        | inr other ↦ rw other h
        | inl ours ↦ elim (Bool-cases (msg.status == "SUCCESS")) [
          | inl good ↦ rw (ours, good) (finish-settled answer _ heard h)
          | inr bad ↦ elim (Bool-cases (msg.status == "FAILED")) [
            | inl failed ↦ rw (ours, bad, failed) (finish-settled answer _ heard h)
            | inr waiting ↦ rw (ours, bad, waiting) h
          ]
        ]
      ]

  run-settled :
      (es : List Event) (w : Wait) (answer : Answer (Unit {0}))
      → w.settled ≡ some answer
      → (run hash timeout_ms es w).settled ≡ some answer
  unfolding run
  run-settled [] w answer h = h
  run-settled (e ∷ es) w answer h =
      run-settled es (step hash timeout_ms e w) answer (step-settled e w answer h)

  -- a step from an open wait
  data Moves (heard : Bool) (e : Event) (after : Wait) : Type 0 where
    settles :
        (answer : Answer (Unit {0}))
        → decision heard e ≡ some answer
        → after.settled ≡ some answer
        → Moves heard e after
    goes_on :
        (subscribed : Bool)
        → decision heard e ≡ none
        → after ≡ open_wait (hears heard e) subscribed
        → Moves heard e after

  step-Moves :
      (heard subscribed : Bool) (e : Event)
      → Moves heard e (step hash timeout_ms e (open_wait heard subscribed))
  unfolding step on_message finish
  step-Moves heard subscribed opened = goes_on true refl refl
  step-Moves heard subscribed errored = settles _ refl refl
  step-Moves heard subscribed (closed code) = settles _ refl refl
  step-Moves heard subscribed timed_out = settles _ refl refl
  step-Moves true subscribed went_silent = goes_on subscribed refl refl
  step-Moves false subscribed went_silent = settles _ refl refl
  step-Moves heard subscribed (frame none) = goes_on subscribed refl refl
  step-Moves heard subscribed (frame (some msg)) = elim (Bool-cases (is_ours hash timeout_ms msg)) [
    | inr other ↦ rw other (goes_on subscribed (rw other refl) (rw other refl))
    | inl ours ↦ elim (Bool-cases (msg.status == "SUCCESS")) [
      | inl good ↦ rw (ours, good) (settles (resolved tt) (rw (ours, good) refl) refl)
      | inr bad ↦ elim (Bool-cases (msg.status == "FAILED")) [
        | inl failed ↦
            rw (ours, bad, failed)
              (settles (rejected (failed_error hash timeout_ms msg.error))
                (rw (ours, bad, failed) refl) refl)
        | inr waiting ↦
            rw (ours, bad, waiting)
              (goes_on subscribed (rw (ours, bad, waiting) refl) (rw ours refl))
      ]
    ]
  ]

  run-verdict :
      (es : List Event) (heard subscribed : Bool)
      → (run hash timeout_ms es (open_wait heard subscribed)).settled ≡ verdict heard es
  unfolding run
  run-verdict [] heard subscribed = refl
  run-verdict (e ∷ es) heard subscribed =
      let after = step hash timeout_ms e (open_wait heard subscribed) in
      elim (step-Moves heard subscribed e) [
        | settles answer decided settled ↦
            rw (decided, verdict) (run-settled es after answer settled)
        | goes_on subscribed' undecided same ↦
            rw (undecided, verdict, same, run) (run-verdict es (hears heard e) subscribed')
      ]

  -- A wait settles with the first event that decides, and nothing that comes later changes it: a SUCCESS or FAILED
  -- notification for the hash, an error or the closing of the socket, the timeout, or the timer for silence as
  -- long as no notification for the hash has come.
  pub settled-run : (es : List Event) → (run hash timeout_ms es fresh).settled ≡ verdict false es
  settled-run es = run-verdict es false false

  -- a SUCCESS notification for the hash
  abbrev pub IsSuccess : Event → Type 0
  IsSuccess (frame (some msg)) =
      (is_ours hash timeout_ms msg ≡ true) × ((msg.status == "SUCCESS") ≡ true)
  IsSuccess _ = ⊥

  abbrev pub Any : (Event → Type 0) → List Event → Type 0
  Any P [] = ⊥
  Any P (e ∷ es) = P e ⊎ Any P es

  decision-IsSuccess :
      (heard : Bool) (e : Event) → decision heard e ≡ some (resolved tt) → IsSuccess e
  decision-IsSuccess heard opened h = absurd cc
  decision-IsSuccess heard errored h = absurd cc
  decision-IsSuccess heard (closed code) h = absurd cc
  decision-IsSuccess heard timed_out h = absurd cc
  decision-IsSuccess true went_silent h = absurd cc
  decision-IsSuccess false went_silent h = absurd cc
  decision-IsSuccess heard (frame none) h = absurd cc
  decision-IsSuccess heard (frame (some msg)) h = elim (Bool-cases (is_ours hash timeout_ms msg)) [
    | inr other ↦ absurd (cc (rw other at h))
    | inl ours ↦ elim (Bool-cases (msg.status == "SUCCESS")) [
      | inl good ↦ (ours, good)
      | inr bad ↦ elim (Bool-cases (msg.status == "FAILED")) [
        | inl failed ↦ absurd (cc (rw (ours, bad, failed) at h))
        | inr waiting ↦ absurd (cc (rw (ours, bad, waiting) at h))
      ]
    ]
  ]

  verdict-IsSuccess :
      (heard : Bool) (es : List Event) → verdict heard es ≡ some (resolved tt) → Any IsSuccess es
  verdict-IsSuccess heard [] h = absurd cc
  verdict-IsSuccess heard (e ∷ es) h = elim (Option-cases (decision heard e)) [
    | inl undecided ↦ inr (verdict-IsSuccess (hears heard e) es (rw (undecided, verdict) at h))
    | inr (answer, decided) ↦
        inl (decision-IsSuccess heard e (decided ∙ (rw (decided, verdict) at h)))
  ]

  abbrev pub IsTimeout : Event → Type 0
  IsTimeout timed_out = Unit
  IsTimeout _ = ⊥

  timeout_decides :
      (heard : Bool) (e : Event)
      → IsTimeout e
      → (answer : Answer (Unit {0})) × (decision heard e ≡ some answer)
  timeout_decides heard timed_out h = (_, refl)
  timeout_decides heard opened h = elim h [ ]
  timeout_decides heard errored h = elim h [ ]
  timeout_decides heard went_silent h = elim h [ ]
  timeout_decides heard (closed code) h = elim h [ ]
  timeout_decides heard (frame f) h = elim h [ ]

  verdict_timeout :
      (heard : Bool) (es : List Event)
      → Any IsTimeout es
      → (answer : Answer (Unit {0})) × (verdict heard es ≡ some answer)
  verdict_timeout heard [] h = elim h [ ]
  verdict_timeout heard (e ∷ es) h = elim (Option-cases (decision heard e)) [
    | inr (answer, decided) ↦ (answer, rw (decided, verdict) refl)
    | inl undecided ↦
        rw (undecided, verdict)
          (elim h [
            | inr later ↦ verdict_timeout (hears heard e) es later
            | inl now ↦ absurd (cc (undecided, (timeout_decides heard e now).1))
          ])
  ]

  -- A wait reports success only if a SUCCESS notification for the hash has come, and it settles at the latest
  -- when its timeout expires.
  pub settled-run_bounds :
      (es : List Event)
      → ((run hash timeout_ms es fresh).settled ≡ some (resolved tt) → Any IsSuccess es)
        × (Any IsTimeout es
            → (answer : Answer (Unit {0})) × ((run hash timeout_ms es fresh).settled ≡ some answer))
  settled-run_bounds es = (
    λ h. verdict-IsSuccess false es (sym (settled-run es) ∙ h),
    λ h. let (answer, v) = verdict_timeout false es h in (answer, settled-run es ∙ v),
  )
