-- ===== src/Socket/Tests.antt =====
-- Waits over a WebSocket.
use automated_cross_contract.Prelude.{◌≡◌, refl, true, false, none, some, List, [], ◌∷◌, String}
use automated_cross_contract.Submission.{
  Answer, resolved, rejected, soroban, network_error, accepted, success, dropped, Surroundings,
  send_signed_transaction, is_ambiguous_submission_error,
}
use automated_cross_contract.Socket.{
  Event, opened, went_silent, timed_out, frame, closed, fresh, start, run, ws_wait_for_transaction,
  probe_web_socket_support, close_error,
}
use automated_cross_contract.Socket.Verdict.{
  verdict, settled-run, settled-run_bounds, Any, IsSuccess, IsTimeout,
}
use automated_cross_contract.Socket.Unconfirmed.{send_signed_transaction_unconfirmed}

program : Unit {0}
unfolding run probe_web_socket_support ws_wait_for_transaction start
program = tt

abbrev told : String → String → Event
told hash status = frame (
    some
      (record { method = "transaction_status"; hash = some hash; status = status; error = none }))

abbrev events : List Event
events =
    opened
    ∷ told "h" "PENDING"
    ∷ went_silent
    ∷ frame none
    ∷ told "other" "FAILED"
    ∷ told "h" "SUCCESS"
    ∷ timed_out
    ∷ []

confirms : (run "h" 30000 events fresh).settled ≡ some (resolved tt)
unfolding program
confirms = refl

handshake : probe_web_socket_support true (opened ∷ []) ≡ some true
unfolding program
handshake = refl

settled-run_example : (run "h" 30000 events fresh).settled ≡ verdict "h" 30000 false events
settled-run_example = settled-run "h" 30000 events

settled-run_bounds_example :
    ((run "h" 30000 events fresh).settled ≡ some (resolved tt)
      → Any "h" 30000 (IsSuccess "h" 30000) events)
    × (Any "h" 30000 (IsTimeout "h" 30000) events
        → (answer : Answer (Unit {0})) × ((run "h" 30000 events fresh).settled ≡ some answer))
settled-run_bounds_example = settled-run_bounds "h" 30000 events

abbrev closing : Surroundings
closing = record {
  sign = λ x. resolved x;
  hash = λ x. resolved "h";
  send = λ x. resolved (accepted "h");
  look_up = λ h. resolved success;
  ws_wait = λ h. dropped (close_error "h" 30000 1006);
  get_transaction = λ h n. resolved success;
  max_poll_attempts = 30;
  waited_ms = "30000";
  rpc_url = "https://a";
}

send_signed_transaction_unconfirmed_example :
    (text : String) × (send_signed_transaction closing "tx"
      ≡ rejected (soroban network_error text none))
    × (is_ambiguous_submission_error (soroban network_error text none) ≡ false)
unfolding program
send_signed_transaction_unconfirmed_example =
    send_signed_transaction_unconfirmed closing 30000 "tx" "tx" "h" "h" (closed 1006)
      (opened ∷ told "h" "PENDING" ∷ []) (told "h" "SUCCESS" ∷ [])
      (rejected (close_error "h" 30000 1006)) refl refl refl tt refl refl refl
