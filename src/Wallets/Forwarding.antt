-- ===== src/Wallets/Forwarding.antt =====
-- Whose events `WalletManager`, packages/wallet-adapters/src/manager.ts, passes on.
use automated_cross_contract.Prelude.{
  ◌≤◌, ◌≡◌, refl, sym, ap, Bool, some, List, [], ◌∷◌, ◌++◌, String, string_Eq, All, ℕ, ◌+◌, arith,
  Option-cases, Bool-cases, inl, inr,
}
use automated_cross_contract.Wallets.{
  WalletAdapter, Subscription, status_of, network_of, WalletManager, emit_status,
  detach_from_active, subscriptions, find_adapter, Answer, accepts, refuses, timer, with_timeout,
  begin_connect, end_connect, disconnect, Call, connect, leave, connect_with, after_calls,
  connecting,
}

abbrev pub owner : Subscription → String
owner (status_of id) = id
owner (network_of id) = id

-- how many subscriptions of each kind there are
abbrev pub statuses : List Subscription → ℕ
statuses [] = 0
statuses (status_of id ∷ l) = 1 + statuses l
statuses (network_of id ∷ l) = statuses l

abbrev pub networks : List Subscription → ℕ
networks [] = 0
networks (status_of id ∷ l) = networks l
networks (network_of id ∷ l) = 1 + networks l

-- Every subscription belongs to the active adapter, and there is at most one of each kind.
pub record IsAttached (m : WalletManager) : Type 0 where
  pub owned : All (λ s. m.active ≡ some (owner s)) m.active_unsubscribes
  pub one_status : statuses m.active_unsubscribes ≤ 1
  pub one_network : networks m.active_unsubscribes ≤ 1

subscriptions-owned :
    (a : WalletAdapter)
    → All (λ s. some a.id ≡ some (owner s)) (subscriptions a)
      × (statuses (subscriptions a) ≤ 1)
      × (networks (subscriptions a) ≤ 1)
subscriptions-owned a = elim (Bool-cases a.on_connection_change) [
  | inl c ↦ elim (Bool-cases a.on_network_change) [
    | inl n ↦ rw (c, n) ((refl, (refl, tt)), omega arith, omega arith)
    | inr n ↦ rw (c, n) ((refl, tt), omega arith, omega arith)
  ]
  | inr c ↦ elim (Bool-cases a.on_network_change) [
    | inl n ↦ rw (c, n) ((refl, tt), omega arith, omega arith)
    | inr n ↦ rw (c, n) (tt, omega arith, omega arith)
  ]
]

detached : (m : WalletManager) → m.active_unsubscribes ≡ [] → IsAttached m
detached m h = record {
  owned = rw h tt;
  one_status = rw h (omega arith);
  one_network = rw h (omega arith);
}

end-IsAttached :
    (a : WalletAdapter) (answer : Answer) (m : WalletManager)
    → IsAttached (end_connect a answer (emit_status connecting (detach_from_active m)))
unfolding end_connect
end-IsAttached a accepts m =
    let (owned, one_status, one_network) = subscriptions-owned a in
    record { owned = owned; one_status = one_status; one_network = one_network }
end-IsAttached a refuses m = detached _ refl
end-IsAttached a timer m = detached _ refl

connect-IsAttached :
    (id : String) (limited : Bool) (answers : List Answer) (m : WalletManager)
    → IsAttached m
    → IsAttached (connect_with id limited answers m)
unfolding connect_with
connect-IsAttached id limited answers m h = elim (Option-cases (find_adapter id m)) [
  | inl unknown ↦ rw (unknown, connect_with) h
  | inr (a, known) ↦ elim (Option-cases (with_timeout limited answers)) [
    | inl waiting ↦ rw (known, waiting, connect_with) (detached _ refl)
    | inr (answer, settled) ↦ rw (known, settled, connect_with) (end-IsAttached a answer m)
  ]
]

disconnect-IsAttached :
    (works : Bool) (m : WalletManager) → IsAttached m → IsAttached (disconnect works m)
unfolding disconnect
disconnect-IsAttached works m h = elim (Option-cases m.active) [
  | inl nobody ↦ rw (nobody, disconnect) h
  | inr (id, here) ↦ elim (Bool-cases works) [
    | inl good ↦ rw (here, good, disconnect) (detached _ refl)
    | inr bad ↦ rw (here, bad, disconnect) h
  ]
]

-- As long as calls do not overlap, from a manager that listens only to its active adapter, and at most once for its
-- status and once for its network, they keep it so, whatever the adapters answer and whether or not a timeout
-- expires.
pub after_calls-IsAttached :
    (calls : List Call) (m : WalletManager) → IsAttached m → IsAttached (after_calls calls m)
unfolding after_calls
after_calls-IsAttached [] m h = h
after_calls-IsAttached (connect id limited answers ∷ calls) m h =
    after_calls-IsAttached calls (connect_with id limited answers m)
      (connect-IsAttached id limited answers m h)
after_calls-IsAttached (leave works ∷ calls) m h =
    after_calls-IsAttached calls (disconnect works m) (disconnect-IsAttached works m h)

same_unsubscribes :
    (m r : WalletManager) → some m ≡ some r → m.active_unsubscribes ≡ r.active_unsubscribes
same_unsubscribes m r h =
    let same : m ≡ r = cc in ap (λ (k : WalletManager). k.active_unsubscribes) same

begin_connect_detaches :
    (id : String) (m r : WalletManager) → begin_connect id m ≡ some r → r.active_unsubscribes ≡ []
unfolding begin_connect
begin_connect_detaches id m r h = elim (Option-cases (find_adapter id m)) [
  | inl unknown ↦ absurd (cc (rw (unknown, begin_connect) at h))
  | inr (a, known) ↦ sym (
      same_unsubscribes (emit_status connecting (detach_from_active m)) r
        (rw (known, begin_connect) at h))
]

-- when two connections overlap and both are accepted, the subscriptions of both remain
pub end_connect_overlap :
    (a b : WalletAdapter) (m first second : WalletManager)
    → begin_connect a.id m ≡ some first
    → begin_connect b.id first ≡ some second
    → (end_connect b accepts (end_connect a accepts second)).active_unsubscribes
      ≡ subscriptions a ++ subscriptions b
unfolding end_connect
end_connect_overlap a b m first second began_a began_b =
    rw (begin_connect_detaches b.id first second began_b) refl
