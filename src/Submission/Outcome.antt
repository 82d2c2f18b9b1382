-- ===== src/Submission/Outcome.antt =====
-- The outcomes of `sendSignedTransaction`, packages/sdk/src/soroban-resurrect.ts.
use automated_cross_contract.Prelude.{
  Option, ℕ, zero, suc, ◌+◌, ◌<◌, ◌≡◌, refl, sym, ap, ◌∙◌, true, some, String, arith, ◌⊎◌, inl, inr,
  subst,
}
use automated_cross_contract.Submission.{
  Answer, resolved, rejected, Failure, ErrorCode, soroban, foreign, network_error,
  is_ambiguous_submission_error, Surroundings, TxStatus, success, not_found, failed, SendStatus,
  accepted, error, unexpected, WsWait, unavailable, confirmed, dropped, Transport, websocket,
  polling, ◌>>=◌, reconcile_ambiguous_submission, poll_for_receipt, wait_by_polling,
  wait_for_transaction, after_send, send_signed_transaction,
}

-- How the network showed that the transaction with a hash is included: on the WebSocket, or by a poll.
pub data Included (s : Surroundings) (h : String) : Type 0 where
  on_websocket : s.ws_wait h ≡ confirmed → Included s h
  by_poll :
      (n : ℕ) → n < s.max_poll_attempts → s.get_transaction h n ≡ resolved success → Included s h

-- The transaction was signed and hashed. `sendTransaction` accepted it with the hash `r`, and it was shown as
-- included; or `sendTransaction` failed, and the look-up of the hash computed before, which is `r`, found it.
pub record Seen (s : Surroundings) (tx_xdr r : String) : Type 0 where
  pub signed : String
  pub local : String
  pub signs : s.sign tx_xdr ≡ resolved signed
  pub hashes : s.hash signed ≡ resolved local
  pub shown :
      ((s.send signed ≡ resolved (accepted r)) × Included s r)
      ⊎ ((f : Failure) × (s.send signed ≡ rejected f)
          × (r ≡ local)
          × (s.look_up local ≡ resolved success))

>>=-eq-resolved {ℓ κ} :
    {A : Type ℓ} {B : Type κ} (m : Answer A) (f : A → Answer B) {b : B}
    → (m >>= f) ≡ resolved b
    → (a : A) × (m ≡ resolved a) × (f a ≡ resolved b)
>>=-eq-resolved (resolved a) f h = (a, refl, h)
>>=-eq-resolved (rejected e) f h = cc

hash_of : (v w : String × Transport) → resolved v ≡ resolved w → v.0 ≡ w.0
hash_of v w h = let same : v ≡ w = cc in ap (λ (x : String × Transport). x.0) same

resolved_inj : (x y : String) → resolved x ≡ resolved y → x ≡ y
resolved_inj x y h = cc

-- the four answers to a question for a status
data Status (a : Answer TxStatus) : Type 0 where
  included : a ≡ resolved success → Status a
  missing : a ≡ resolved not_found → Status a
  refused : (json : String) → a ≡ resolved (failed json) → Status a
  unanswered : (e : Failure) → a ≡ rejected e → Status a

look_up_cases : (a : Answer TxStatus) → Status a
look_up_cases (resolved success) = included refl
look_up_cases (resolved not_found) = missing refl
look_up_cases (resolved (failed json)) = refused json refl
look_up_cases (rejected e) = unanswered e refl

module _ (s : Surroundings) where
  poll_sees :
      (left attempt : ℕ) (h r : String)
      → poll_for_receipt s left attempt h ≡ resolved r
      → (n : ℕ) × (n < attempt + left) × (s.get_transaction h n ≡ resolved success)
  unfolding poll_for_receipt
  poll_sees zero attempt h r e = cc
  poll_sees (suc left) attempt h r e = elim (look_up_cases (s.get_transaction h attempt)) [
    | included q ↦ (attempt, omega arith, q)
    | missing q ↦
        let (n, small, seen) = poll_sees left (attempt + 1) h r (rw (q, poll_for_receipt) at e) in
        (n, omega arith, seen)
    | refused json q ↦ absurd (cc (rw (q, poll_for_receipt) at e))
    | unanswered f q ↦ absurd (cc (rw (q, poll_for_receipt) at e))
  ]

  -- the answer to a wait for a hash: the hash, which was shown as included
  abbrev IsShown : String → String × Transport → Type 0
  IsShown h w = (h ≡ w.0) × Included s h

  polling_sees :
      (h : String) (w : String × Transport) → wait_by_polling s h ≡ resolved w → IsShown h w
  unfolding wait_by_polling
  polling_sees h w e =
      let (r, polled, given) = >>=-eq-resolved (poll_for_receipt s s.max_poll_attempts 0 h) _ e in
      let (n, small, seen) = poll_sees s.max_poll_attempts 0 h r polled in
      (hash_of (h, polling) w given, by_poll n (omega arith) seen)

  wait_sees :
      (h : String) (w : String × Transport) → wait_for_transaction s h ≡ resolved w → IsShown h w
  unfolding wait_for_transaction
  wait_sees h w e = go (s.ws_wait h) refl
    where
      go : (a : WsWait) → s.ws_wait h ≡ a → IsShown h w
      go unavailable q = polling_sees h w (rw (q, wait_for_transaction) at e)
      go confirmed q =
          (hash_of (h, websocket) w (rw (q, wait_for_transaction) at e), on_websocket q)
      go (dropped (foreign text)) q = polling_sees h w (rw (q, wait_for_transaction) at e)
      go (dropped (soroban c text t)) q = absurd (cc (rw (q, wait_for_transaction) at e))

  after_send_sees :
      (status : SendStatus) (r : String)
      → after_send s status ≡ resolved r
      → (status ≡ accepted r) × Included s r
  unfolding after_send
  after_send_sees (accepted h) r e =
      let (w, waited, given) = >>=-eq-resolved (wait_for_transaction s h) _ e in
      let (same, shown) = wait_sees h w waited in
      let is_r : h ≡ r = same ∙ resolved_inj (w.0) r given in
      (ap accepted is_r, subst (Included s) is_r shown)
  after_send_sees (error result) r e = cc
  after_send_sees (unexpected status) r e = cc

  reconcile_sees :
      (h r : String)
      → reconcile_ambiguous_submission s h ≡ resolved r
      → (r ≡ h) × (s.look_up h ≡ resolved success)
  unfolding reconcile_ambiguous_submission
  reconcile_sees h r e = elim (look_up_cases (s.look_up h)) [
    | included q ↦ (sym (resolved_inj h r (rw (q, reconcile_ambiguous_submission) at e)), q)
    | missing q ↦ absurd (cc (rw (q, reconcile_ambiguous_submission) at e))
    | refused json q ↦ absurd (cc (rw (q, reconcile_ambiguous_submission) at e))
    | unanswered f q ↦ absurd (cc (rw (q, reconcile_ambiguous_submission) at e))
  ]

  -- A submission succeeds only with the hash of the transaction, which the network showed as included: accepted with
  -- that hash by `sendTransaction`, and then confirmed for it on the WebSocket or by one of the polls for it, which
  -- are limited in number; or, when `sendTransaction` failed, found by a look-up of the hash of the signed
  -- transaction computed before.
  pub send_signed_transaction-Seen :
      (tx_xdr r : String) → send_signed_transaction s tx_xdr ≡ resolved r → Seen s tx_xdr r
  unfolding send_signed_transaction
  send_signed_transaction-Seen tx_xdr r e =
      let (signed, signs, e') = >>=-eq-resolved (s.sign tx_xdr) _ e in
      let (h, hashes, e'') = >>=-eq-resolved (s.hash signed) _ e' in
      record {
        signed = signed;
        local = h;
        signs = signs;
        hashes = hashes;
        shown = go signed h (s.send signed) refl e'';
      }
    where
      go :
          (signed h : String) (a : Answer SendStatus)
          → s.send signed ≡ a
          → elim a [
            | resolved status ↦ after_send s status
            | rejected f ↦ reconcile_ambiguous_submission s h
          ]
            ≡ resolved r
          → ((s.send signed ≡ resolved (accepted r)) × Included s r)
            ⊎ ((f : Failure) × (s.send signed ≡ rejected f)
                × (r ≡ h)
                × (s.look_up h ≡ resolved success))
      go signed h (resolved status) sent q =
          let (same, shown) = after_send_sees status r q in inl (sent ∙ ap resolved same, shown)
      go signed h (rejected f) sent q =
          let (same, found) = reconcile_sees h r q in inr (f, sent, same, found)

  poll_misses :
      (left attempt : ℕ) (h : String)
      → ((n : ℕ) → n < left → s.get_transaction h (attempt + n) ≡ resolved not_found)
      → (text : String) × (poll_for_receipt s left attempt h
          ≡ rejected (soroban network_error text (some h)))
  unfolding poll_for_receipt
  poll_misses zero attempt h missed = (_, refl)
  poll_misses (suc left) attempt h missed =
      let here : s.get_transaction h attempt ≡ resolved not_found =
        subst (λ n. s.get_transaction h n ≡ resolved not_found) (omega arith)
          (missed 0 (omega arith)) in
      rw (here, poll_for_receipt)
        (poll_misses left (attempt + 1) h (λ n small.
          subst (λ m. s.get_transaction h m ≡ resolved not_found) (omega arith)
            (missed (n + 1) (omega arith))))

  pub wait_by_polling_timeout :
      (h : String)
      → ((n : ℕ) → n < s.max_poll_attempts → s.get_transaction h n ≡ resolved not_found)
      → (text : String) × (wait_by_polling s h ≡ rejected (soroban network_error text (some h)))
        × (is_ambiguous_submission_error (soroban network_error text (some h)) ≡ true)
  unfolding wait_by_polling is_ambiguous_submission_error
  wait_by_polling_timeout h missed =
      let (text, out) = poll_misses s.max_poll_attempts 0 h (λ n small.
        subst (λ m. s.get_transaction h m ≡ resolved not_found) (omega arith) (missed n small)) in
      (text, rw (out, wait_by_polling) refl, refl)

  -- an accepted submission whose WebSocket wait fails with an error of the client
  pub send_signed_transaction_dropped :
      (tx_xdr signed local h : String) (code : ErrorCode) (text : String) (x : Option String)
      → s.sign tx_xdr ≡ resolved signed
      → s.hash signed ≡ resolved local
      → s.send signed ≡ resolved (accepted h)
      → s.ws_wait h ≡ dropped (soroban code text x)
      → send_signed_transaction s tx_xdr ≡ rejected (soroban code text x)
  unfolding send_signed_transaction after_send wait_for_transaction
  send_signed_transaction_dropped tx_xdr signed local h code text x signs hashes sends waits =
      rw (signs, hashes, sends, after_send, waits, wait_for_transaction) refl

  -- behind an error that is not one of the client, the transaction is polled for
  pub wait_for_transaction_foreign :
      (h text : String)
      → s.ws_wait h ≡ dropped (foreign text)
      → wait_for_transaction s h ≡ wait_by_polling s h
  unfolding wait_for_transaction
  wait_for_transaction_foreign h text waits = rw (waits, wait_for_transaction) refl
