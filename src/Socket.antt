-- ===== src/Socket.antt =====
-- packages/sdk/src/soroban-resurrect.ts: `wsWaitForTransaction`, the wait for a transaction over a WebSocket, as a
-- state machine over the events of the socket and of its two timers; an event of a timer that is cleared changes
-- nothing. What `JSON.parse` makes of a frame is part of its event. `probeWebSocketSupport` is its smaller sibling.
mod Verdict
mod Unconfirmed
mod Tests
use automated_cross_contract.Prelude.{
  ℕ, ◌*◌, Bool, true, false, not, ◌&&◌, ◌||◌, Option, none, some, List, [], ◌∷◌, String,
  if◌then◌else◌, ◌==◌, string_Eq, ◌+s◌, decimal, or_else,
}
use automated_cross_contract.Submission.{
  Answer, resolved, rejected, Failure, soroban, foreign, network_error, original_tx_failed, WsWait,
  unavailable, confirmed, dropped,
}

-- the members of a `WsTransactionStatusEvent` that are read
pub record WsTransactionStatusEvent : Type 0 where
  pub method : String
  pub hash : Option String
  pub status : String
  pub error : Option String

-- `frame none` is a frame that is not JSON
pub data Event : Type 0 where
  opened errored timed_out went_silent : Event
  frame : Option WsTransactionStatusEvent → Event
  closed : ℕ → Event

-- `settled` is what the promise is settled with
pub record Wait : Type 0 where
  pub settled : Option (Answer (Unit {0}))
  pub timer : Bool
  pub silent_drop_timer : Bool
  pub subscribed : Bool
  pub socket_closed : Bool

abbrev pub fresh : Wait
fresh = record {
  settled = none;
  timer = true;
  silent_drop_timer = true;
  subscribed = false;
  socket_closed = false;
}

-- The wait behind the construction of the socket, with the error of a constructor that throws. The source then
-- clears only the first timer and leaves its own flag unset; the other timer finds the promise settled.
unfoldable pub start : Option String → Wait
start none = fresh
start (some thrown) = record fresh { settled = some (rejected (foreign thrown)); timer = false }

abbrev pub is_some {ℓ} : {A : Type ℓ} → Option A → Bool
is_some none = false
is_some (some a) = true

unfoldable pub finish : Answer (Unit {0}) → Wait → Wait
finish answer w = if is_some w.settled then w else record w {
  settled = some answer;
  timer = false;
  silent_drop_timer = false;
  socket_closed = true;
}

module _ (hash : String) (timeout_ms : ℕ) where
  -- the errors that settle the wait; none of them has a context, so none has a `txHash`
  abbrev pub timeout_error : Failure
  timeout_error =
      soroban network_error
        ("Transaction "
          +s hash
          +s " not confirmed via WebSocket after "
          +s decimal timeout_ms
          +s "ms")
        none

  abbrev pub silent_error : Failure
  silent_error = foreign ("Silent WebSocket drop detected for " +s hash)

  abbrev pub socket_error : Failure
  socket_error = soroban network_error ("WebSocket error waiting for transaction " +s hash) none

  abbrev pub close_error : ℕ → Failure
  close_error code =
      soroban network_error
        ("WebSocket closed unexpectedly (code " +s decimal code +s ") while waiting for " +s hash)
        none

  abbrev pub failed_error : Option String → Failure
  failed_error error =
      soroban original_tx_failed
        ("Transaction " +s hash +s " failed: " +s or_else error "unknown error") none

  -- a `transaction_status` notification for this hash
  abbrev pub is_ours : WsTransactionStatusEvent → Bool
  is_ours msg =
      msg.method == "transaction_status" && elim msg.hash [ none ↦ false | some h ↦ h == hash ]

  unfoldable pub on_message : WsTransactionStatusEvent → Wait → Wait
  unfolding finish
  on_message msg w =
      let heard = record w { silent_drop_timer = false } in
      if is_ours msg
      then (if msg.status == "SUCCESS"
          then finish (resolved tt) heard
          else if msg.status == "FAILED"
          then finish (rejected (failed_error msg.error)) heard
          else heard)
      else w

  unfoldable pub step : Event → Wait → Wait
  unfolding on_message finish
  step opened w = record w { subscribed = true }
  step (frame none) w = w
  step (frame (some msg)) w = on_message msg w
  step errored w = finish (rejected socket_error) w
  step (closed code) w = finish (rejected (close_error code)) w
  step timed_out w =
      if w.timer then finish (rejected timeout_error) (record w { timer = false }) else w
  step went_silent w =
      if w.silent_drop_timer
      then finish (rejected silent_error) (record w { silent_drop_timer = false })
      else w

  pub run : List Event → Wait → Wait
  unfolding step
  run [] w = w
  run (e ∷ es) w = run es (step e w)

  unfoldable pub ws_wait_for_transaction : Option String → List Event → Wait
  unfolding run start
  ws_wait_for_transaction thrown es = run es (start thrown)

-- what `waitForTransaction` sees of a wait that has settled
abbrev pub wait_of : Answer (Unit {0}) → WsWait
wait_of (resolved done) = confirmed
wait_of (rejected e) = dropped e

-- the events of `probeWebSocketSupport` are the opening, an error, and its timer (`timed_out`)
pub probe : List Event → Option Bool
probe [] = none
probe (opened ∷ es) = some true
probe (errored ∷ es) = some false
probe (timed_out ∷ es) = some false
probe (_ ∷ es) = probe es

-- `constructed` tells that the constructor of the socket has not thrown
unfoldable pub probe_web_socket_support : Bool → List Event → Option Bool
unfolding probe
probe_web_socket_support constructed es = if constructed then probe es else some false
