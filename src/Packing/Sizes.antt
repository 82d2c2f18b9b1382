-- ===== src/Packing/Sizes.antt =====
-- The sizes and the contents of the batches of `createBatches`, packages/utils/src/batching.ts.
use automated_cross_contract.Prelude.{
  ℕ, zero, suc, ◌+◌, ◌≤◌, ◌<◌, ◌≡◌, refl, sym, ◌∙◌, ap, true, Option, none, some, List, [], ◌∷◌,
  ◌++◌, map, append-nil, append_assoc, ltb, leb, length, length-append, take, drop, concat,
  concat-append, concat-snoc, take-append-drop, length-take-le, length-drop, All, All-append,
  All-snoc, arith, Bool-cases, inl, inr,
}
use automated_cross_contract.Packing.{
  ArchivedKey, batch_keys_by_contract, sort_groups, Packer, flush, slices, pack_group, pack_groups,
  max_batch_size, empty_packer, create_batches,
}

-- all keys that the packer holds
abbrev held : Packer → List ArchivedKey
held p = concat p.batches ++ p.current

-- a batch of the right size
abbrev pub IsSized : ℕ → List ArchivedKey → Type 0
IsSized max b = (0 < length b) × (length b ≤ max)

-- a packer whose current batch is empty
record Flushed (max : ℕ) (before after : Packer) : Type 0 where
  emptied : after.current ≡ []
  same : held after ≡ held before
  sized :
      All (IsSized max) before.batches
      → length before.current ≤ max
      → All (IsSized max) after.batches

flush_fields :
    (max : ℕ) (batches : List (List ArchivedKey)) (current : List ArchivedKey)
    → (let p : Packer = record { batches = batches; current = current } in Flushed max p (flush p))
unfolding flush
flush_fields max batches [] = record { emptied = refl; same = refl; sized = λ h small. h }
flush_fields max batches (k ∷ ks) =
    let some_key : ltb 0 (length (k ∷ ks)) ≡ true = ground arith in
    rw (some_key, flush)
      (record {
        emptied = refl;
        same = append-nil _ ∙ concat-snoc batches (k ∷ ks);
        sized = λ h small. All-snoc (IsSized max) batches (k ∷ ks) h (omega arith, small);
      })

flush-Flushed : (max : ℕ) (p : Packer) → Flushed max p (flush p)
flush-Flushed max p = flush_fields max p.batches p.current

concat-slices :
    (max fuel : ℕ) (keys : List ArchivedKey)
    → 0 < max
    → length keys ≤ fuel
    → concat (slices max fuel keys) ≡ keys
unfolding slices
concat-slices max zero [] pos enough = refl
concat-slices max zero (k ∷ ks) pos enough = absurd (omega (arith, enough))
concat-slices max (suc fuel) [] pos enough = refl
concat-slices max (suc fuel) (k ∷ ks) pos enough =
    ap (◌++◌ (take max (k ∷ ks))) (
      concat-slices max fuel (drop max (k ∷ ks)) pos
        (omega (arith, length-drop max (k ∷ ks), enough, pos)))
    ∙ take-append-drop max (k ∷ ks)

length-take-pos :
    (max : ℕ) (k : ArchivedKey) (ks : List ArchivedKey) → 0 < max → 0 < length (take max (k ∷ ks))
length-take-pos zero k ks pos = absurd (omega (arith, pos))
length-take-pos (suc n) k ks pos = omega arith

slices-IsSized :
    (max fuel : ℕ) (keys : List ArchivedKey) → 0 < max → All (IsSized max) (slices max fuel keys)
unfolding slices
slices-IsSized max zero keys pos = tt
slices-IsSized max (suc fuel) [] pos = tt
slices-IsSized max (suc fuel) (k ∷ ks) pos = (
  (length-take-pos max k ks pos, length-take-le max (k ∷ ks)),
  slices-IsSized max fuel (drop max (k ∷ ks)) pos,
)

-- The packer behind a group: it holds the group's keys too, and keeps to the sizes.
record Packed (max : ℕ) (before : Packer) (keys : List ArchivedKey) (after : Packer) : Type 0 where
  same : held after ≡ held before ++ keys
  sized :
      All (IsSized max) before.batches
      → length before.current ≤ max
      → All (IsSized max) after.batches × (length after.current ≤ max)

pack_group-Packed :
    (max : ℕ) (p : Packer) (keys : List ArchivedKey)
    → 0 < max
    → Packed max p keys (pack_group max p keys)
unfolding pack_group
pack_group-Packed max p keys pos = elim (Bool-cases (leb (length keys) max)) [
  | inl small ↦ elim (Bool-cases (ltb max (length p.current + length keys))) [
    | inl over ↦
        let f = flush-Flushed max p in
        rw (small, over, pack_group)
          (record {
            same =
                sym (append_assoc (concat (flush p).batches) (flush p).current keys)
                ∙ ap (λ l. l ++ keys) f.same;
            sized = λ h le. (f.sized h le, rw f.emptied (ground arith));
          })
    | inr fits ↦
        rw (small, fits, pack_group)
          (record {
            same = sym (append_assoc (concat p.batches) p.current keys);
            sized = λ h le. (h, ground (arith, length-append p.current keys));
          })
  ]
  | inr large ↦
      let f = flush-Flushed max p in
      rw (large, pack_group)
        (record {
          same =
              ap (λ l. concat ((flush p).batches ++ slices max (length keys) keys) ++ l) f.emptied
              ∙ append-nil _
              ∙ concat-append (flush p).batches (slices max (length keys) keys)
              ∙ ap (◌++◌ (concat (flush p).batches))
                  (concat-slices max (length keys) keys pos (omega arith))
              ∙ ap (λ l. l ++ keys) (sym (append-nil _) ∙ (rw f.emptied at f.same));
          sized = λ h le. (
            All-append (IsSized max) (flush p).batches (slices max (length keys) keys)
                (f.sized h le) (slices-IsSized max (length keys) keys pos),
            omega (arith, ap length f.emptied),
          );
        })
]

pack_groups-Packed :
    (max : ℕ) (p : Packer) (groups : List (List ArchivedKey))
    → 0 < max
    → Packed max p (concat groups) (pack_groups max p groups)
unfolding pack_groups
pack_groups-Packed max p [] pos = record {
  same = sym (append-nil _);
  sized = λ h small. (h, small);
}
pack_groups-Packed max p (keys ∷ groups) pos =
    let one = pack_group-Packed max p keys pos in
    let more = pack_groups-Packed max (pack_group max p keys) groups pos in
    record {
      same =
          more.same
          ∙ ap (λ l. l ++ concat groups) one.same
          ∙ append_assoc (held p) keys (concat groups);
      sized = λ h small. let (h', small') = one.sized h small in more.sized h' small';
    }

pub max_batch_size-pos : (option : Option ℕ) → 0 < max_batch_size option
max_batch_size-pos none = omega arith
max_batch_size-pos (some n) = ground arith

-- the groups in the order in which they are packed
abbrev pub sorted_keys : List ArchivedKey → List (List ArchivedKey)
sorted_keys keys = map (λ g. g.1) (sort_groups (batch_keys_by_contract keys))

-- The batches, one after the other, hold the keys of the sorted groups; no batch is empty or larger than
-- the maximum, also where the maximum is left out or 0.
pub create_batches-IsSized :
    (option : Option ℕ) (keys : List ArchivedKey)
    → (concat (create_batches option keys) ≡ concat (sorted_keys keys))
      × All (IsSized (max_batch_size option)) (create_batches option keys)
unfolding create_batches
create_batches-IsSized option keys =
    let max = max_batch_size option in
    let packed = pack_groups max empty_packer (sorted_keys keys) in
    let step = pack_groups-Packed max empty_packer (sorted_keys keys) (max_batch_size-pos option) in
    let (sized, small) = step.sized tt (omega arith) in
    let f = flush-Flushed max packed in
    (sym (append-nil _) ∙ (rw f.emptied at f.same) ∙ step.same, f.sized sized small)
