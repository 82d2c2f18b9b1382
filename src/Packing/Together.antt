-- ===== src/Packing/Together.antt =====
-- The place of a group in the batches of `createBatches`, packages/utils/src/batching.ts.
use automated_cross_contract.Prelude.{
  ℕ, zero, suc, ◌+◌, ◌≤◌, ◌<◌, ◌≡◌, refl, sym, ◌∙◌, ap, true, Option, List, [], ◌∷◌, ◌++◌,
  append-nil, append_assoc, ltb, leb, length, get_elem?, some, arith, Bool-cases, inl, inr, ◌⊎◌,
}
use automated_cross_contract.Packing.{
  ArchivedKey, Packer, flush, slices, pack_group, pack_groups, max_batch_size, empty_packer,
  create_batches,
}
use automated_cross_contract.Packing.Sizes.{sorted_keys}

-- the keys stand in the batch, one behind the other
abbrev pub Within : List ArchivedKey → List ArchivedKey → Type 0
Within batch keys =
    (before : List ArchivedKey) × (after : List ArchivedKey) × (batch ≡ before ++ (keys ++ after))

-- one of the batches has the keys
abbrev pub Inside : List (List ArchivedKey) → List ArchivedKey → Type 0
Inside batches keys =
    (before : List (List ArchivedKey)) × (batch : List ArchivedKey) × (after : List
      (List ArchivedKey))
    × (batches ≡ before ++ batch ∷ after)
    × Within batch keys

-- the keys stand in a batch, or in the current one
abbrev Kept : Packer → List ArchivedKey → Type 0
Kept p keys = Inside p.batches keys ⊎ Within p.current keys

Inside-append :
    (batches more : List (List ArchivedKey)) (keys : List ArchivedKey)
    → Inside batches keys
    → Inside (batches ++ more) keys
Inside-append batches more keys (before, batch, after, split, within) = (
  before,
  batch,
  after ++ more,
  ap (λ l. l ++ more) split ∙ append_assoc before (batch ∷ after) more,
  within,
)

Within-append :
    (batch more keys : List ArchivedKey) → Within batch keys → Within (batch ++ more) keys
Within-append batch more keys (before, after, split) = (
  before,
  after ++ more,
  ap (λ l. l ++ more) split
      ∙ append_assoc before (keys ++ after) more
      ∙ ap (◌++◌ before) (append_assoc keys after more),
)

-- a current batch that is not empty becomes a batch
flush_some :
    (batches : List (List ArchivedKey)) (k : ArchivedKey) (ks keys : List ArchivedKey)
    → (let p : Packer = record { batches = batches; current = k ∷ ks } in
        Kept p keys → Inside (flush p).batches keys)
unfolding flush
flush_some batches k ks keys kept =
    let some_key : ltb 0 (length (k ∷ ks)) ≡ true = ground arith in
    rw (some_key, flush)
      (elim kept [
        | inl inside ↦ Inside-append batches ((k ∷ ks) ∷ []) keys inside
        | inr within ↦ (batches, k ∷ ks, [], refl, within)
      ])

flush_fields :
    (batches : List (List ArchivedKey)) (current keys : List ArchivedKey)
    → (let p : Packer = record { batches = batches; current = current } in
        Kept p keys → Kept (flush p) keys)
unfolding flush
flush_fields batches [] keys kept = kept
flush_fields batches (k ∷ ks) keys kept = inl (flush_some batches k ks keys kept)

flush-Kept : (p : Packer) (keys : List ArchivedKey) → Kept p keys → Kept (flush p) keys
flush-Kept p keys kept = flush_fields p.batches p.current keys kept

Within-end : (current keys : List ArchivedKey) → Within (current ++ keys) keys
Within-end current keys = (current, [], ap (◌++◌ current) (sym (append-nil keys)))

-- what was kept stays so, and a group that fits is kept
pack_group-Kept :
    (max : ℕ) (p : Packer) (group keys : List ArchivedKey)
    → Kept p keys ⊎ ((group ≡ keys) × (length keys ≤ max))
    → Kept (pack_group max p group) keys
unfolding pack_group
pack_group-Kept max p group keys (inr (same, fits)) =
    let small : leb (length group) max ≡ true = rw same (ground arith) in
    rw (small, pack_group) (inr (rw same (Within-end _ keys)))
pack_group-Kept max p group keys (inl kept) = elim (Bool-cases (leb (length group) max)) [
  | inl small ↦ elim (Bool-cases (ltb max (length p.current + length group))) [
    | inl over ↦
        rw (small, over, pack_group)
          (elim (flush-Kept p keys kept) [
            | inl inside ↦ inl inside
            | inr within ↦ inr (Within-append (flush p).current group keys within)
          ])
    | inr room ↦
        rw (small, room, pack_group)
          (elim kept [
            | inl inside ↦ inl inside
            | inr within ↦ inr (Within-append p.current group keys within)
          ])
  ]
  | inr large ↦
      rw (large, pack_group)
        (elim (flush-Kept p keys kept) [
          | inl inside ↦
              inl (Inside-append (flush p).batches (slices max (length group) group) keys inside)
          | inr within ↦ inr within
        ])
]

pack_groups-Kept :
    (max : ℕ) (p : Packer) (groups : List (List ArchivedKey)) (keys : List ArchivedKey)
    → Kept p keys
    → Kept (pack_groups max p groups) keys
unfolding pack_groups
pack_groups-Kept max p [] keys kept = kept
pack_groups-Kept max p (group ∷ groups) keys kept =
    pack_groups-Kept max (pack_group max p group) groups keys
      (pack_group-Kept max p group keys (inl kept))

-- the group at a place of the list
keeps_group :
    (max : ℕ) (p : Packer) (groups : List (List ArchivedKey)) (i : ℕ) (keys : List ArchivedKey)
    → get_elem? groups i ≡ some keys
    → length keys ≤ max
    → Kept (pack_groups max p groups) keys
unfolding pack_groups
keeps_group max p [] i keys listed fits = cc
keeps_group max p (group ∷ groups) zero keys listed fits =
    pack_groups-Kept max (pack_group max p group) groups keys
      (pack_group-Kept max p group keys (inr (cc, fits)))
keeps_group max p (group ∷ groups) (suc i) keys listed fits =
    keeps_group max (pack_group max p group) groups i keys listed fits

flushed_fields :
    (batches : List (List ArchivedKey)) (current keys : List ArchivedKey)
    → (let p : Packer = record { batches = batches; current = current } in
        0 < length keys → Kept p keys → Inside (flush p).batches keys)
unfolding flush
flushed_fields batches [] keys nonempty (inl inside) = inside
flushed_fields batches [] [] nonempty (inr within) = absurd (omega (arith, nonempty))
flushed_fields batches [] (k ∷ ks) nonempty (inr ([], after, split)) = absurd (cc split)
flushed_fields batches [] (k ∷ ks) nonempty (inr (b ∷ before, after, split)) = absurd (cc split)
flushed_fields batches (c ∷ cs) keys nonempty kept = flush_some batches c cs keys kept

-- A group of the contract's keys that fits in one batch is never split: one batch holds it whole, its keys
-- one behind the other.
pub create_batches-Inside :
    (option : Option ℕ) (keys group : List ArchivedKey) (i : ℕ)
    → get_elem? (sorted_keys keys) i ≡ some group
    → 0 < length group
    → length group ≤ max_batch_size option
    → Inside (create_batches option keys) group
unfolding create_batches
create_batches-Inside option keys group i listed nonempty fits =
    let packed = pack_groups (max_batch_size option) empty_packer (sorted_keys keys) in
    flushed_fields packed.batches packed.current group nonempty
      (keeps_group (max_batch_size option) empty_packer (sorted_keys keys) i group listed fits)
