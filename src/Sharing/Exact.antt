-- ===== src/Sharing/Exact.antt =====
-- The map of submissions in flight, packages/sdk/src/soroban-resurrect.ts, and the submissions that run.
use automated_cross_contract.Prelude.{
  ℕ, ◌<◌, ◌≡◌, refl, sym, ◌∙◌, none, some, List, [], ◌∷◌, String, string_Eq, nat_Eq, ◌↔◌, arith,
  Option-cases, inl, inr,
}
use automated_cross_contract.Prelude.Dict
use automated_cross_contract.Sharing.{
  Submissions, none_yet, submit_signed_transaction, settle_submission, Event, submitted, settled,
  after_events,
}

-- The map has exactly the submissions that run.
record IsExact (s : Submissions) : Type 0 where
  pub exact :
      (x : String) (n : ℕ) → (Dict.get x s.in_flight ≡ some n) ↔ (Dict.get n s.pending ≡ some x)
  pub numbered : (x : String) (n : ℕ) → Dict.get n s.pending ≡ some x → n < s.next

submit-IsExact :
    (x : String) (s : Submissions) → IsExact s → IsExact (submit_signed_transaction x s).1
unfolding submit_signed_transaction
submit-IsExact x s h = elim (Option-cases (Dict.get x s.in_flight)) [
  | inr (n, here) ↦ rw (here, submit_signed_transaction) h
  | inl absent ↦
      rw (absent, submit_signed_transaction)
        (record {
          exact = λ y n. ground (
            arith,
            Dict.get-put x y s.next s.in_flight,
            Dict.get-put s.next n x s.pending,
            h.exact y n,
            h.exact x n,
            h.numbered y n,
            string_Eq.beq_iff y x,
            absent,
          );
          numbered =
              λ y n known. ground (arith, Dict.get-put s.next n x s.pending, h.numbered y n, known);
        })
]

settle-IsExact : (k : ℕ) (s : Submissions) → IsExact s → IsExact (settle_submission k s)
unfolding settle_submission
settle-IsExact k s h = elim (Option-cases (Dict.get k s.pending)) [
  | inl nothing ↦ rw (nothing, settle_submission) h
  | inr (x, here) ↦
      rw (here, settle_submission)
        (record {
          exact = λ y n. ground (
            arith,
            Dict.get-remove x y s.in_flight,
            Dict.get-remove k n s.pending,
            h.exact y n,
            h.exact x k,
            h.exact x n,
            h.exact y k,
            string_Eq.beq_iff y x,
            here,
          );
          numbered =
              λ y n known. ground (arith, Dict.get-remove k n s.pending, h.numbered y n, known);
        })
]

after_events-IsExact : (es : List Event) (s : Submissions) → IsExact s → IsExact (after_events es s)
unfolding after_events
after_events-IsExact [] s h = h
after_events-IsExact (submitted x ∷ es) s h =
    after_events-IsExact es (submit_signed_transaction x s).1 (submit-IsExact x s h)
after_events-IsExact (settled n ∷ es) s h =
    after_events-IsExact es (settle_submission n s) (settle-IsExact n s h)

none_yet-IsExact : IsExact none_yet
none_yet-IsExact = record {
  exact = λ x n. (λ h. absurd cc, λ h. absurd cc);
  numbered = λ x n h. absurd cc;
}

pub record IsShared (s : Submissions) : Type 0 where
  -- no two submissions of one XDR run at the same time
  pub single :
      (m n : ℕ) (x : String) → Dict.get m s.pending ≡ some x → Dict.get n s.pending ≡ some x → m ≡ n
  -- a call for an XDR that is being submitted joins that submission and starts nothing
  pub joins :
      (n : ℕ) (x : String) → Dict.get n s.pending ≡ some x → submit_signed_transaction x s ≡ (n, s)
  -- every call gets the promise of a submission of its own XDR that runs
  pub served :
      (x : String)
      → Dict.get (submit_signed_transaction x s).0 (submit_signed_transaction x s).1.pending
        ≡ some x
  -- behind its end, an XDR is not in flight, so that a later call submits it again
  pub again :
      (n : ℕ) (x : String)
      → Dict.get n s.pending ≡ some x
      → Dict.get x (settle_submission n s).in_flight ≡ none

same_number : (m n : ℕ) → some m ≡ some n → m ≡ n
same_number m n h = cc

exact-IsShared : (s : Submissions) → IsExact s → IsShared s
unfolding submit_signed_transaction settle_submission
exact-IsShared s h = record {
  single = λ m n x p q. same_number m n (sym ((h.exact x m).1 p) ∙ (h.exact x n).1 q);
  joins = λ n x p. rw ((h.exact x n).1 p, submit_signed_transaction) refl;
  served = λ x. elim (Option-cases (Dict.get x s.in_flight)) [
    | inr (n, here) ↦ rw (here, submit_signed_transaction) ((h.exact x n).0 here)
    | inl absent ↦ rw (absent, submit_signed_transaction) (Dict.get-put_self s.next x s.pending)
  ];
  again = λ n x p.
      rw (p, settle_submission)
        (Dict.get-remove x x s.in_flight ∙ ground (arith, string_Eq.beq_iff x x));
}

-- After any run of submissions and settlements, at most one submission of each XDR runs; a call for it joins that
-- one, every call is served by a running submission of its own XDR, and a settled XDR can be submitted again.
pub after_events-IsShared : (es : List Event) → IsShared (after_events es none_yet)
after_events-IsShared es =
    exact-IsShared (after_events es none_yet) (after_events-IsExact es none_yet none_yet-IsExact)
