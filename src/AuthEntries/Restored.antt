-- ===== src/AuthEntries/Restored.antt =====
-- The keys that must be restored for authorization entries, packages/sdk/src/auth-entry-restoration.ts.
use automated_cross_contract.Prelude.{
  ◌≡◌, ◌↔◌, ◌⊎◌, refl, sym, ◌∙◌, subst, Bool, true, false, ◌&&◌, ◌||◌, ◌==◌, Option, none, some,
  List, [], ◌∷◌, ◌++◌, String, string_Eq, Bool-cases, inl, inr, arith,
}
use automated_cross_contract.Prelude.Dict.{Distinct}
use automated_cross_contract.Prelude.Members.{is_in, is_in-append, is_in-filter, Distinct-snoc}
use automated_cross_contract.AuthEntries.{
  Invocation, Invocations, invocation, no_more, and_then, walk, walk_all, AuthEntry,
  extract_auth_entry_keys, is_nil, expired_keys, detect_expired_auth_entries, add_unseen,
  add_entries, keys_to_restore_for_auth_entries,
}

add_unseen_lem :
    (keys more : List String)
    → Distinct keys
    → Distinct (add_unseen keys more)
      × ((key : String) → is_in key (add_unseen keys more) ≡ (is_in key keys || is_in key more))
unfolding add_unseen
add_unseen_lem keys [] d = (d, λ key. ground arith)
add_unseen_lem keys (x ∷ more) d = elim (Bool-cases (is_in x keys)) [
  | inl here ↦
      let (distinct, members) = add_unseen_lem keys more d in
      rw here (distinct, λ key. ground (arith, members key, string_Eq.beq_iff key x, here))
  | inr new ↦
      let (distinct, members) = add_unseen_lem (keys ++ x ∷ []) more (Distinct-snoc keys x d new) in
      rw new (distinct, λ key. ground (arith, members key, is_in-append key keys (x ∷ [])))
]

-- a key is one of those extracted from some entry
abbrev depends : String → List AuthEntry → Bool
depends key [] = false
depends key (entry ∷ entries) = is_in key (extract_auth_entry_keys entry) || depends key entries

is_nil-none : (keys : List String) (key : String) → is_nil keys ≡ true → is_in key keys ≡ false
is_nil-none [] key h = refl
is_nil-none (x ∷ xs) key h = absurd cc

restored_from :
    (entries : List AuthEntry) (archived keys : List String)
    → Distinct keys
    → (let result = add_entries keys (detect_expired_auth_entries entries archived).expired in
        Distinct result
        × ((key : String)
            → is_in key result ≡ (is_in key keys || (depends key entries && is_in key archived))))
unfolding detect_expired_auth_entries add_entries
restored_from [] archived keys d = (d, λ key. ground arith)
restored_from (entry ∷ entries) archived keys d =
    let filtered : (key : String)
        → is_in key (expired_keys archived entry)
          ≡ (is_in key (extract_auth_entry_keys entry) && is_in key archived) =
      λ key. is_in-filter key (λ k. is_in k archived) (extract_auth_entry_keys entry) in
    elim (Bool-cases (is_nil (expired_keys archived entry))) [
      | inl fine ↦
          let (distinct, members) = restored_from entries archived keys d in
          rw (fine, detect_expired_auth_entries)
            (
              distinct,
              λ key. ground (
                arith,
                members key,
                filtered key,
                is_nil-none (expired_keys archived entry) key fine,
              ),
            )
      | inr bad ↦
          let (unique, added) = add_unseen_lem keys (expired_keys archived entry) d in
          let (distinct, members) =
            restored_from entries archived (add_unseen keys (expired_keys archived entry)) unique in
          rw (bad, detect_expired_auth_entries)
            (distinct, λ key. ground (arith, members key, filtered key, added key))
    ]

restored_bool :
    (entries : List AuthEntry) (archived : List String)
    → (let result =
          keys_to_restore_for_auth_entries (detect_expired_auth_entries entries archived) in
        Distinct result
        × ((key : String) → is_in key result ≡ (depends key entries && is_in key archived)))
unfolding keys_to_restore_for_auth_entries
restored_bool entries archived = restored_from entries archived [] tt

-- the contract instance that an invocation calls, or that one of its sub-invocations calls, at any depth
mutual
  pub data Calls (key : String) : Invocation → Type 0 where
    directly : {subs : Invocations} → Calls key (invocation (some key) subs)
    below :
        {function : Option String} {subs : Invocations}
        → CallsAny key subs
        → Calls key (invocation function subs)

  pub data CallsAny (key : String) : Invocations → Type 0 where
    first : {i : Invocation} {subs : Invocations} → Calls key i → CallsAny key (and_then i subs)
    later :
        {i : Invocation} {subs : Invocations} → CallsAny key subs → CallsAny key (and_then i subs)

in_append :
    (key : String) (xs ys : List String)
    → is_in key (xs ++ ys) ≡ true
    → (is_in key xs ≡ true) ⊎ (is_in key ys ≡ true)
in_append key xs ys h = elim (Bool-cases (is_in key xs)) [
  | inl here ↦ inl here
  | inr absent ↦ inr (ground (arith, is_in-append key xs ys))
]

mutual
  unfolding walk

  walk-Calls : (key : String) (i : Invocation) → is_in key (walk i) ≡ true → Calls key i
  walk-Calls key (invocation none subs) h = below (walk_all-CallsAny key subs h)
  walk-Calls key (invocation (some k) subs) h = elim (Bool-cases (key == k)) [
    | inl same ↦
        subst (λ x. Calls key (invocation (some x) subs)) ((string_Eq.beq_iff key k).0 same)
          directly
    | inr other ↦ below (walk_all-CallsAny key subs (rw other at h))
  ]

  walk_all-CallsAny :
      (key : String) (subs : Invocations) → is_in key (walk_all subs) ≡ true → CallsAny key subs
  walk_all-CallsAny key no_more h = absurd cc
  walk_all-CallsAny key (and_then i subs) h = elim (in_append key (walk i) (walk_all subs) h) [
    | inl here ↦ first (walk-Calls key i here)
    | inr there ↦ later (walk_all-CallsAny key subs there)
  ]

in_left : (key : String) (xs ys : List String) → is_in key xs ≡ true → is_in key (xs ++ ys) ≡ true
in_left key xs ys h = ground (arith, is_in-append key xs ys)

in_right : (key : String) (xs ys : List String) → is_in key ys ≡ true → is_in key (xs ++ ys) ≡ true
in_right key xs ys h = ground (arith, is_in-append key xs ys)

in_cons : (key k : String) (xs : List String) → is_in key xs ≡ true → is_in key (k ∷ xs) ≡ true
in_cons key k xs h = ground arith

in_self : (key : String) (xs : List String) → is_in key (key ∷ xs) ≡ true
in_self key xs = ground (arith, string_Eq.beq_iff key key)

mutual
  unfolding walk

  Calls-walk : (key : String) (i : Invocation) → Calls key i → is_in key (walk i) ≡ true
  Calls-walk key (invocation (some k) subs) directly = in_self key (walk_all subs)
  Calls-walk key (invocation none subs) (below c) = CallsAny-walk_all key subs c
  Calls-walk key (invocation (some k) subs) (below c) =
      in_cons key k (walk_all subs) (CallsAny-walk_all key subs c)

  CallsAny-walk_all :
      (key : String) (subs : Invocations) → CallsAny key subs → is_in key (walk_all subs) ≡ true
  CallsAny-walk_all key no_more c = elim c [ ]
  CallsAny-walk_all key (and_then i subs) (first c) =
      in_left key (walk i) (walk_all subs) (Calls-walk key i c)
  CallsAny-walk_all key (and_then i subs) (later c) =
      in_right key (walk i) (walk_all subs) (CallsAny-walk_all key subs c)

-- some entry calls the contract instance
abbrev pub Depends : String → List AuthEntry → Type 0
Depends key [] = ⊥
Depends key (entry ∷ entries) = Calls key entry.root_invocation ⊎ Depends key entries

depends_iff :
    (key : String) (entries : List AuthEntry) → (depends key entries ≡ true) ↔ Depends key entries
unfolding extract_auth_entry_keys
depends_iff key [] = (λ h. absurd cc, λ h. elim h [ ])
depends_iff key (entry ∷ entries) = (
  λ h. elim (Bool-cases (is_in key (walk entry.root_invocation))) [
    | inl here ↦ inl (walk-Calls key entry.root_invocation here)
    | inr absent ↦ inr ((depends_iff key entries).0 (rw absent at h))
  ],
  λ h. elim h [
    | inl calls ↦ rw (Calls-walk key entry.root_invocation calls) refl
    | inr more ↦ let there = (depends_iff key entries).1 more in ground (arith, there)
  ],
)

-- The keys to restore for authorization entries are distinct, and they are exactly the archived keys of contract
-- instances that some entry calls, in its root invocation or in a sub-invocation at any depth.
pub keys_to_restore_for_auth_entries-Distinct :
    (entries : List AuthEntry) (archived : List String)
    → (let result =
          keys_to_restore_for_auth_entries (detect_expired_auth_entries entries archived) in
        Distinct result
        × ((key : String)
            → (is_in key result ≡ true) ↔ (Depends key entries × (is_in key archived ≡ true))))
keys_to_restore_for_auth_entries-Distinct entries archived =
    let (distinct, members) = restored_bool entries archived in
    (
      distinct,
      λ key. (
        λ h.
            let both : (depends key entries && is_in key archived) ≡ true = sym (members key) ∙ h in
            ((depends_iff key entries).0 (ground (arith, both)), ground (arith, both)),
        λ (needed, old).
            let so = (depends_iff key entries).1 needed in ground (arith, members key, so, old),
      ),
    )
