-- ===== src/MockLedger/Sequences.antt =====
-- The numbers that `SequenceManager`, packages/mock-rpc/src/sequence-manager.ts, hands out.
use automated_cross_contract.Prelude.{
  ℕ, zero, suc, ◌+◌, ◌≡◌, refl, sym, ap, List, [], ◌∷◌, map, String, if◌then◌else◌, ◌==◌, string_Eq,
  filter_b, length, decimal, Bool-cases, inl, inr, arith,
}
use automated_cross_contract.Prelude.Dict
use automated_cross_contract.MockLedger.{SequenceManager, get_sequence, get_and_increment, draw}

abbrev pub answers_for : String → List (String × String) → List String
answers_for account answers = map (λ a. a.1) (filter_b (λ a. account == a.0) answers)

-- consecutive numbers, as texts
abbrev pub consecutive : ℕ → ℕ → List String
consecutive start zero = []
consecutive start (suc n) = decimal start ∷ consecutive (start + 1) n

get_sequence-increment :
    (account other : String) (m : SequenceManager)
    → get_sequence account (get_and_increment other m).1
      ≡ (if account == other then get_sequence account m + 1 else get_sequence account m)
unfolding get_and_increment
get_sequence-increment account other m = ground (
  arith,
  Dict.get-put other account (get_sequence other m + 1) m.sequences,
  string_Eq.beq_iff account other,
)

-- However the calls of several accounts interleave, an account gets consecutive sequence numbers from its current
-- one, one for each of its calls.
pub answers_for-draw :
    (account : String) (accounts : List String) (m : SequenceManager)
    → answers_for account (draw accounts m)
      ≡ consecutive (get_sequence account m) (length (filter_b (λ a. account == a) accounts))
unfolding draw
answers_for-draw account [] m = refl
answers_for-draw account (other ∷ accounts) m =
    let next = (get_and_increment other m).1 in
    let ih = answers_for-draw account accounts next in
    let moved = get_sequence-increment account other m in
    elim (Bool-cases (account == other)) [
      | inl own ↦
          let number : String = decimal (get_sequence account m) in
          let same : account ≡ other = (string_Eq.beq_iff account other).0 own in
          let rest : List String =
            consecutive (get_sequence account m + 1)
              (length (filter_b (λ a. account == a) accounts)) in
          rw (own, ih, moved, own) (ap (λ a. decimal (get_sequence a m) ∷ rest) (sym same))
      | inr foreign ↦ rw (foreign, ih, moved, foreign) refl
    ]
