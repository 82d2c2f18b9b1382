-- ===== src/Reads/Joined.antt =====
-- The keys that `getLedgerEntries`, packages/sdk/src/ledger-read-coalescer.ts, waits for and those it fetches.
use automated_cross_contract.Prelude.{
  ℕ, ◌+◌, ◌≡◌, ◌≢◌, ◌≤◌, refl, sym, ◌∙◌, ap, subst, true, false, ◌||◌, none, some, List, [], ◌∷◌,
  ◌++◌, map, map-append, append_assoc, append-nil, String, if◌then◌else◌, ◌==◌, string_Eq, length,
  length-append, All, All-append, Option-cases, Bool-cases, List-cases, inl, inr, arith,
}
use mathlib.Core.List.{Perm, perm_middle}
use mathlib.Core.List.Perm
use automated_cross_contract.Prelude.Dict
use automated_cross_contract.Prelude.Dict.{Distinct, keys}
use automated_cross_contract.Prelude.Members.{is_in, is_in-append, Distinct-snoc}
use automated_cross_contract.Reads.{
  LedgerReadCoalescer, collect, partition, put_all, Read, with_call, start,
}

-- what `collect` makes of the keys `ids` and its own `unique` and `skipped`
pub record Collected (ids unique : List String) (skipped : ℕ) (r : List String × ℕ) : Type 0 where
  pub distinct : Distinct (r.0)
  pub counted : length r.0 + r.1 ≡ length unique + length ids + skipped
  pub members : (id : String) → is_in id r.0 ≡ (is_in id unique || is_in id ids)

pub collect-Collected :
    (ids unique : List String) (skipped : ℕ)
    → Distinct unique
    → Collected ids unique skipped (collect ids unique skipped)
unfolding collect
collect-Collected [] unique skipped d = record {
  distinct = d;
  counted = omega arith;
  members = λ id. ground arith;
}
collect-Collected (x ∷ xs) unique skipped d = elim (Bool-cases (is_in x unique)) [
  | inl here ↦
      let ih = collect-Collected xs unique (skipped + 1) d in
      rw here (record {
        distinct = ih.distinct;
        counted = omega (arith, ih.counted);
        members = λ id. ground (arith, ih.members id, string_Eq.beq_iff id x, here);
      })
  | inr new ↦
      let ih = collect-Collected xs (unique ++ x ∷ []) skipped (Distinct-snoc unique x d new) in
      rw new (record {
        distinct = ih.distinct;
        counted = omega (arith, ih.counted, length-append unique (x ∷ []));
        members = λ id. ground (arith, ih.members id, is_in-append id unique (x ∷ []));
      })
]

-- what `partition` makes of distinct keys
record Parted (in_flight : List (String × ℕ)) (ids : List String)
    (r : List (String × ℕ) × List String) : Type 0 where
  pub pending : All (λ w. Dict.get w.0 in_flight ≡ some w.1) r.0
  pub missing : All (λ id. Dict.get id in_flight ≡ none) r.1
  pub distinct : Distinct (r.1)
  pub counted : length r.0 + length r.1 ≡ length ids
  pub shared : Perm (map (λ w. w.0) r.0 ++ r.1) ids
  pub others : (id : String) → All (λ x. id ≢ x) ids → All (λ x. id ≢ x) r.1

partition-Parted :
    (in_flight : List (String × ℕ)) (ids : List String)
    → Distinct ids
    → Parted in_flight ids (partition in_flight ids)
unfolding partition
partition-Parted in_flight [] d = record {
  pending = tt;
  missing = tt;
  distinct = tt;
  counted = omega arith;
  shared = Perm.refl _;
  others = λ id h. tt;
}
partition-Parted in_flight (id ∷ ids) (p, d) =
    let ih = partition-Parted in_flight ids d in
    elim (Option-cases (Dict.get id in_flight)) [
      | inr (call, found) ↦
          rw (found, partition)
            (record {
              pending = (found, ih.pending);
              missing = ih.missing;
              distinct = ih.distinct;
              counted = omega (arith, ih.counted);
              shared = Perm.cons id ih.shared;
              others = λ x (q, h). ih.others x h;
            })
      | inl nothing ↦
          rw (nothing, partition)
            (record {
              pending = ih.pending;
              missing = (nothing, ih.missing);
              distinct = (ih.others id p, ih.distinct);
              counted = omega (arith, ih.counted);
              shared = Perm.trans (perm_middle _ _) (Perm.cons id ih.shared);
              others = λ x (q, h). (q, ih.others x h);
            })
    ]

get-put_all :
    (call : ℕ) (j : String) (ids : List String) (m : List (String × ℕ))
    → Dict.get j (put_all call ids m) ≡ (if is_in j ids then some call else Dict.get j m)
unfolding put_all
get-put_all call j [] m = refl
get-put_all call j (id ∷ ids) m =
    ground (arith, get-put_all call j ids (Dict.put id call m), Dict.get-put id j call m)

awaited_before :
    (call : ℕ) (ids : List String) (m : List (String × ℕ)) (waits : List (String × ℕ))
    → All (λ id. Dict.get id m ≡ none) ids
    → All (λ w. Dict.get w.0 m ≡ some w.1) waits
    → All (λ w. Dict.get w.0 (put_all call ids m) ≡ some w.1) waits
awaited_before call ids m [] new h = tt
awaited_before call ids m ((id, n) ∷ waits) new (p, h) =
    (get-put_all call id ids m ∙ rw (not_new id ids new p) p, awaited_before call ids m waits new h)
  where
    not_new :
        (id : String) (ids : List String)
        → All (λ id. Dict.get id m ≡ none) ids
        → Dict.get id m ≡ some n
        → is_in id ids ≡ false
    not_new id [] h p = refl
    not_new id (x ∷ xs) (q, h) p = elim (Bool-cases (id == x)) [
      | inl same ↦
          let id_is : id ≡ x = (string_Eq.beq_iff id x).0 same in
          absurd (cc (subst (λ k. Dict.get k m ≡ none) (sym id_is) q, p))
      | inr other ↦ rw other (not_new id xs h p)
    ]

is_in_suffix : (xs ys : List String) → All (λ id. is_in id (xs ++ ys) ≡ true) ys
is_in_suffix xs [] = tt
is_in_suffix xs (y ∷ ys) = (
  is_in-append y xs (y ∷ ys) ∙ ground (arith, string_Eq.beq_iff y y),
  subst (λ l. All (λ id. is_in id l ≡ true) ys) (append_assoc xs (y ∷ []) ys)
      (is_in_suffix (xs ++ y ∷ []) ys),
)

awaited_after :
    (call : ℕ) (ids all : List String) (m : List (String × ℕ))
    → All (λ id. is_in id all ≡ true) ids
    → All (λ w. Dict.get w.0 (put_all call all m) ≡ some w.1) (with_call call ids)
awaited_after call [] all m h = tt
awaited_after call (id ∷ ids) all m (p, h) =
    (get-put_all call id all m ∙ rw p refl, awaited_after call ids all m h)

pub keys-with_call : (call : ℕ) (ids : List String) → map (λ w. w.0) (with_call call ids) ≡ ids
keys-with_call call [] = refl
keys-with_call call (id ∷ ids) = ap (◌∷◌ id) (keys-with_call call ids)

-- `unique` has each of the keys once. Every one of them is awaited once, by the promise that is in flight for it
-- behind the call, and fetched if none was in flight before; all keys are counted.
pub record Joins (ids : List String) (c : LedgerReadCoalescer) (r : Read) : Type 0 where
  pub unique : List String
  pub distinct : Distinct unique
  pub requested : (id : String) → is_in id unique ≡ is_in id ids
  pub shared : Perm (map (λ w. w.0) r.waits) unique
  pub awaited : All (λ w. Dict.get w.0 r.coalescer.in_flight ≡ some w.1) r.waits
  pub missing : All (λ id. Dict.get id c.in_flight ≡ none) r.fetched
  pub once : Distinct r.fetched
  pub keys_counted :
      r.coalescer.keys_requested + r.coalescer.duplicate_keys_skipped
      ≡ c.keys_requested + c.duplicate_keys_skipped + length ids
  pub waits_counted :
      r.coalescer.keys_coalesced + length r.fetched + c.keys_requested
      ≡ c.keys_coalesced + r.coalescer.keys_requested
  pub one_call : r.coalescer.rpc_calls ≤ c.rpc_calls + 1

start-Parted :
    (ids : List String) (c : LedgerReadCoalescer)
    → Collected ids [] 0 (collect ids [] 0)
    → Parted c.in_flight (collect ids [] 0).0 (partition c.in_flight (collect ids [] 0).0)
    → Joins ids c (start ids c)
unfolding start
start-Parted ids c u p =
    let parted = partition c.in_flight (collect ids [] 0).0 in
    elim (List-cases parted.1) [
      | inl nothing ↦
          rw (nothing, start)
            (record {
              unique = (collect ids [] 0).0;
              distinct = u.distinct;
              requested = u.members;
              shared =
                  subst (λ l. Perm l (collect ids [] 0).0)
                    (ap (λ l. keys parted.0 ++ l) nothing ∙ append-nil _) p.shared;
              awaited = p.pending;
              missing = tt;
              once = tt;
              keys_counted = omega (arith, u.counted);
              waits_counted = omega (arith, p.counted, ap length nothing);
              one_call = omega arith;
            })
      | inr (id, rest, some_left) ↦
          let all = id ∷ rest in
          let missing : All (λ id. Dict.get id c.in_flight ≡ none) all =
            subst (All (λ id. Dict.get id c.in_flight ≡ none)) some_left p.missing in
          rw (some_left, start)
            (record {
              unique = (collect ids [] 0).0;
              distinct = u.distinct;
              requested = u.members;
              shared =
                  subst (λ l. Perm l (collect ids [] 0).0)
                    (ap (λ l. keys parted.0 ++ l) (some_left ∙ sym (keys-with_call c.rpc_calls all))
                      ∙ sym (map-append (λ w. w.0) parted.0 (with_call c.rpc_calls all)))
                    p.shared;
              awaited =
                  All-append (λ w. Dict.get w.0 (put_all c.rpc_calls all c.in_flight) ≡ some w.1)
                    parted.0 (with_call c.rpc_calls all)
                    (awaited_before c.rpc_calls all c.in_flight parted.0 missing p.pending)
                    (awaited_after c.rpc_calls all all c.in_flight (is_in_suffix [] all));
              missing = missing;
              once = subst Distinct some_left p.distinct;
              keys_counted = omega (arith, u.counted);
              waits_counted = omega (arith, p.counted, ap length some_left);
              one_call = omega arith;
            })
    ]

-- Each key asked for is awaited exactly once, by the promise in flight for it behind the call; the keys handed to
-- the fetcher are distinct and had no read in flight, so no key is ever fetched twice at the same time. The
-- statistics count each key as requested or skipped and each requested key as coalesced or fetched, and one
-- RPC call at most is made.
pub start-Joins : (ids : List String) (c : LedgerReadCoalescer) → Joins ids c (start ids c)
start-Joins ids c =
    let u = collect-Collected ids [] 0 tt in
    start-Parted ids c u (partition-Parted c.in_flight (collect ids [] 0).0 u.distinct)
