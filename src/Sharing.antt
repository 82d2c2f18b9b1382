-- ===== src/Sharing.antt =====
-- packages/sdk/src/soroban-resurrect.ts: `submitSignedTransaction`, by which concurrent calls with the same unsigned
-- XDR share one submission. A promise is a number; `pending` are the runs of `sendSignedTransaction` that have
-- not settled, each with its XDR.
mod Exact
mod Tests
use automated_cross_contract.Prelude.{
  ℕ, ◌+◌, Option, none, some, List, [], ◌∷◌, String, string_Eq, nat_Eq,
}
use automated_cross_contract.Prelude.Dict

pub record Submissions : Type 0 where
  pub in_flight : List (String × ℕ)
  pub pending : List (ℕ × String)
  pub next : ℕ

abbrev pub none_yet : Submissions
none_yet = record { in_flight = []; pending = []; next = 0 }

unfoldable pub submit_signed_transaction : String → Submissions → ℕ × Submissions
submit_signed_transaction tx_xdr s = elim (Dict.get tx_xdr s.in_flight) [
  | some existing ↦ (existing, s)
  | none ↦ (
    s.next,
    record {
      in_flight = Dict.put tx_xdr s.next s.in_flight;
      pending = Dict.put s.next tx_xdr s.pending;
      next = s.next + 1;
    },
  )
]

-- a submission settles, and its `finally` deletes the entry of its XDR
unfoldable pub settle_submission : ℕ → Submissions → Submissions
settle_submission n s = elim (Dict.get n s.pending) [
  | none ↦ s
  | some tx_xdr ↦ record s {
    pending = Dict.remove n s.pending;
    in_flight = Dict.remove tx_xdr s.in_flight;
  }
]

pub data Event : Type 0 where
  submitted : String → Event
  settled : ℕ → Event

pub after_events : List Event → Submissions → Submissions
unfolding submit_signed_transaction settle_submission
after_events [] s = s
after_events (submitted tx_xdr ∷ es) s = after_events es (submit_signed_transaction tx_xdr s).1
after_events (settled n ∷ es) s = after_events es (settle_submission n s)
