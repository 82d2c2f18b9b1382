-- ===== src/Socket/Unconfirmed.antt =====
-- A submission whose wait over the WebSocket, packages/sdk/src/soroban-resurrect.ts, ends without an answer.
use automated_cross_contract.Prelude.{
  ℕ, ◌≡◌, refl, sym, ap, ◌∙◌, Bool, false, none, some, List, [], ◌∷◌, ◌++◌, String, Option-cases,
  inl, inr,
}
use automated_cross_contract.Submission.{
  Answer, resolved, rejected, soroban, foreign, network_error, accepted, Surroundings, dropped,
  is_ambiguous_submission_error, send_signed_transaction, wait_for_transaction, wait_by_polling,
}
use automated_cross_contract.Submission.Outcome.{
  send_signed_transaction_dropped, wait_for_transaction_foreign,
}
use automated_cross_contract.Socket.{
  Event, opened, errored, timed_out, went_silent, frame, closed, Wait, start, step, run,
  ws_wait_for_transaction, wait_of,
}
use automated_cross_contract.Socket.Verdict.{decision, hears, verdict, step-settled, settled-run}

-- the socket fails or closes, or the timeout expires
abbrev pub IsLoss : Event → Type 0
IsLoss errored = Unit
IsLoss timed_out = Unit
IsLoss (closed code) = Unit
IsLoss _ = ⊥

module _ (h : String) (timeout_ms : ℕ) where
  decision_lost :
      (heard : Bool) (e : Event)
      → IsLoss e
      → (text : String) × (decision h timeout_ms heard e
          ≡ some (rejected (soroban network_error text none)))
  decision_lost heard errored l = (_, refl)
  decision_lost heard timed_out l = (_, refl)
  decision_lost heard (closed code) l = (_, refl)
  decision_lost heard opened l = elim l [ ]
  decision_lost heard went_silent l = elim l [ ]
  decision_lost heard (frame f) l = elim l [ ]

  verdict_lost :
      (before after : List Event) (heard : Bool) (e : Event)
      → IsLoss e
      → verdict h timeout_ms heard before ≡ none
      → (text : String) × (verdict h timeout_ms heard (before ++ e ∷ after)
          ≡ some (rejected (soroban network_error text none)))
  verdict_lost [] after heard e l open_wait =
      let (text, decided) = decision_lost heard e l in (text, rw (decided, verdict) refl)
  verdict_lost (x ∷ before) after heard e l open_wait =
      elim (Option-cases (decision h timeout_ms heard x)) [
        | inr (answer, decided) ↦ absurd (cc (rw (decided, verdict) at open_wait))
        | inl undecided ↦
            let (text, told) =
              verdict_lost before after (hears h timeout_ms heard x) e l
                (rw (undecided, verdict) at open_wait) in
            (text, rw (undecided, verdict) told)
      ]

wait_dropped :
    (answer : Answer (Unit {0})) (text : String)
    → some (rejected (soroban network_error text none)) ≡ some answer
    → wait_of answer ≡ dropped (soroban network_error text none)
wait_dropped answer text told =
    let same : rejected (soroban network_error text none) ≡ answer = cc in sym (ap wait_of same)

-- The network has accepted a transaction. If its WebSocket then closes or fails, or the timeout expires, at a moment
-- at which nothing that came before has settled the wait, then the submission fails with `NETWORK_ERROR` without
-- a hash, whatever comes later: it is not polled for, and the error does not count as ambiguous, though the
-- transaction may still be included.
pub send_signed_transaction_unconfirmed :
    (s : Surroundings) (timeout_ms : ℕ) (tx_xdr signed local h : String) (e : Event)
    (before after : List Event) (answer : Answer (Unit {0}))
    → s.sign tx_xdr ≡ resolved signed
    → s.hash signed ≡ resolved local
    → s.send signed ≡ resolved (accepted h)
    → IsLoss e
    → (ws_wait_for_transaction h timeout_ms none before).settled ≡ none
    → (ws_wait_for_transaction h timeout_ms none (before ++ e ∷ after)).settled ≡ some answer
    → s.ws_wait h ≡ wait_of answer
    → (text : String) × (send_signed_transaction s tx_xdr
        ≡ rejected (soroban network_error text none))
      × (is_ambiguous_submission_error (soroban network_error text none) ≡ false)
unfolding is_ambiguous_submission_error ws_wait_for_transaction start
send_signed_transaction_unconfirmed s timeout_ms tx_xdr signed local h e before after answer signs
      hashes sends lost open_wait settled waits =
    let undecided : verdict h timeout_ms false before ≡ none =
      sym (settled-run h timeout_ms before) ∙ open_wait in
    let (text, decided) = verdict_lost h timeout_ms before after false e lost undecided in
    let told = sym decided ∙ sym (settled-run h timeout_ms (before ++ e ∷ after)) ∙ settled in
    (
      text,
      send_signed_transaction_dropped s tx_xdr signed local h network_error text none signs hashes
          sends (waits ∙ wait_dropped answer text told),
      refl,
    )

run_thrown :
    (h : String) (timeout_ms : ℕ) (es : List Event) (w : Wait) (answer : Answer (Unit {0}))
    → w.settled ≡ some answer
    → (run h timeout_ms es w).settled ≡ some answer
unfolding run
run_thrown h timeout_ms [] w answer settled = settled
run_thrown h timeout_ms (e ∷ es) w answer settled =
    run_thrown h timeout_ms es (step h timeout_ms e w) answer
      (step-settled h timeout_ms e w answer settled)

-- When the constructor of the socket throws, the wait fails with its error, whatever timer still expires, and the
-- transaction is polled for.
pub wait_for_transaction_thrown :
    (s : Surroundings) (timeout_ms : ℕ) (h thrown : String) (es : List Event)
    (answer : Answer (Unit {0}))
    → (ws_wait_for_transaction h timeout_ms (some thrown) es).settled ≡ some answer
    → s.ws_wait h ≡ wait_of answer
    → wait_for_transaction s h ≡ wait_by_polling s h
unfolding ws_wait_for_transaction start
wait_for_transaction_thrown s timeout_ms h thrown es answer settled waits =
    let told : some (rejected (foreign thrown)) ≡ some answer =
      sym (run_thrown h timeout_ms es (start (some thrown)) (rejected (foreign thrown)) refl)
      ∙ settled in
    let same : rejected (foreign thrown) ≡ answer = cc in
    wait_for_transaction_foreign s h thrown (waits ∙ sym (ap wait_of same))
