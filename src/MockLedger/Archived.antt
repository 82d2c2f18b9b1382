-- ===== src/MockLedger/Archived.antt =====
-- Live and archived entries of `MockLedgerState`, packages/mock-rpc/src/ledger-state.ts.
use automated_cross_contract.Prelude.{
  ℕ, ◌+◌, ◌≤◌, ◌<◌, ◌≡◌, refl, Bool, true, not, Option, some, List, [], ◌∷◌, ◌++◌, String, lt→ltb,
  string_Eq, All, Option-cases, Bool-cases, List-cases, inl, inr, arith,
}
use mathlib.Core.List.{Perm, perm_middle}
use mathlib.Core.List.Perm
use automated_cross_contract.Prelude.Dict
use automated_cross_contract.MockLedger.{
  SimulatedLedgerEntry, MockLedgerState, get_expiry_ledger, is_archived, entries_at,
  get_live_entries, get_archived_entries, raised, max_expiry, targets_of, archive_all,
}

raised-bounds : (a b : ℕ) → (a ≤ raised a b) × (b ≤ raised a b)
raised-bounds a b = ground arith

max_expiry-bounds :
    (s : MockLedgerState) (es : List SimulatedLedgerEntry) (highest : ℕ)
    → (highest ≤ max_expiry s es highest)
      × All (λ e. get_expiry_ledger s e ≤ max_expiry s es highest) es
unfolding max_expiry
max_expiry-bounds s [] highest = (omega arith, tt)
max_expiry-bounds s (e ∷ es) highest =
    let top = raised highest (get_expiry_ledger s e) in
    let (low, rest) = max_expiry-bounds s es top in
    let above = raised-bounds highest (get_expiry_ledger s e) in
    (omega (arith, low, above.0), (omega (arith, low, above.1), rest))

all_archived :
    (s t : MockLedgerState) (es : List SimulatedLedgerEntry)
    → t.default_ttl ≡ s.default_ttl
    → All (λ e. get_expiry_ledger s e < t.current_ledger_seq) es
    → All (λ e. is_archived t e ≡ true) es
unfolding is_archived
all_archived s t [] same h = tt
all_archived s t (e ∷ es) same (p, h) = (rw same (lt→ltb _ _ p), all_archived s t es same h)

all_below :
    (f : SimulatedLedgerEntry → ℕ) (m : ℕ) (es : List SimulatedLedgerEntry)
    → All (λ e. f e ≤ m) es
    → All (λ e. f e < m + 1) es
all_below f m [] h = tt
all_below f m (e ∷ es) (p, h) = (omega (arith, p), all_below f m es h)

-- Behind `archiveAll`, every entry it was called for is archived, and all entries of the ledger if it was called for
-- none in particular.
pub archive_all-archived :
    (entries : Option (List SimulatedLedgerEntry)) (s : MockLedgerState)
    → All (λ e. is_archived (archive_all entries s) e ≡ true) (targets_of entries s)
unfolding archive_all
archive_all-archived entries s = elim (List-cases (targets_of entries s)) [
  | inl nothing ↦ rw nothing tt
  | inr (e, es, found) ↦
      let highest : ℕ = max_expiry s (e ∷ es) 0 in
      rw (found, archive_all)
        (all_archived s (record s { current_ledger_seq = highest + 1 }) (e ∷ es) refl
          (all_below (get_expiry_ledger s) highest (e ∷ es) (max_expiry-bounds s (e ∷ es) 0).1))
]

entries_at-Perm :
    (p : SimulatedLedgerEntry → Bool) (keys : List String) (s : MockLedgerState)
    → Perm
        (entries_at (λ e. not (p e)) keys s ++ entries_at p keys s)
        (entries_at (λ e. true) keys s)
unfolding entries_at
entries_at-Perm p [] s = Perm.refl _
entries_at-Perm p (key ∷ keys) s = elim (Option-cases (Dict.get key s.entries)) [
  | inl nothing ↦ rw (nothing, entries_at) (entries_at-Perm p keys s)
  | inr (e, here) ↦ elim (Bool-cases (p e)) [
    | inl good ↦
        rw (here, good, entries_at)
          (Perm.trans (perm_middle _ _) (Perm.cons e (entries_at-Perm p keys s)))
    | inr bad ↦ rw (here, bad, entries_at) (Perm.cons e (entries_at-Perm p keys s))
  ]
]

-- Each entry found under the keys asked for is either live or archived: the two answers together are the entries
-- under the keys.
pub get_live_entries-Perm :
    (keys : List String) (s : MockLedgerState)
    → Perm
        (get_live_entries keys s ++ get_archived_entries (some keys) s)
        (entries_at (λ e. true) keys s)
unfolding get_live_entries get_archived_entries
get_live_entries-Perm keys s = entries_at-Perm (is_archived s) keys s
