-- ===== src/Submission/Stale.antt =====
-- Refusals with a result code and `isStaleSequenceError`, packages/sdk/src/types.ts.
use text.Mathlib.TextLemmas.{nil-append, cons-append}
use automated_cross_contract.Prelude.{◌+s◌, ◌≡◌, refl, true, false, String, arith, ◌⊎◌, inl, inr}
use automated_cross_contract.Submission.{
  Failure, is_stale_sequence_error, is_ambiguous_submission_error, has_stale_result, Surroundings,
  error, rejected, after_send,
}

has_stale_result-append :
    (p t : String) → has_stale_result t ≡ true → has_stale_result (p +s t) ≡ true
unfolding has_stale_result
has_stale_result-append String.[] t h = rw nil-append h
has_stale_result-append (String.◌∷◌ c p) t h =
    rw cons-append (ground (arith, has_stale_result-append p t h))

-- A submission refused with the result code `txBadSeq` or `txTooLate` is rejected with an error that
-- counts as a stale sequence number, whatever the RPC URL, and not as ambiguous.
pub after_send-stale :
    (s : Surroundings) (result : String)
    → (result ≡ "txBadSeq") ⊎ (result ≡ "txTooLate")
    → (e : Failure) × (after_send s (error result) ≡ rejected e)
      × (is_stale_sequence_error e ≡ true)
      × (is_ambiguous_submission_error e ≡ false)
unfolding after_send is_stale_sequence_error is_ambiguous_submission_error
after_send-stale s result h = (
  _,
  refl,
  has_stale_result-append "Transaction submission error (rpcUrl="
      (s.rpc_url +s ", result=" +s result +s ")")
      (has_stale_result-append s.rpc_url (", result=" +s result +s ")") (found result h)),
  refl,
)
  where
    found :
        (r : String)
        → (r ≡ "txBadSeq") ⊎ (r ≡ "txTooLate")
        → has_stale_result (", result=" +s r +s ")") ≡ true
    found r (inl e) = rw e refl
    found r (inr e) = rw e refl
