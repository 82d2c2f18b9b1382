-- ===== src/Wallets.antt =====
-- packages/wallet-adapters/src/manager.ts: `WalletManager`. A call of `connect` has two parts, around its `await`: what
-- comes before it, and what its settling does. An adapter is its id and the listeners that it takes; what it
-- answers, and when its timeout expires, are events.
mod Forwarding
mod Tests
use automated_cross_contract.Prelude.{
  ℕ, Bool, true, false, ◌||◌, ◌&&◌, Option, none, some, List, [], ◌∷◌, ◌++◌, String, if◌then◌else◌,
  ◌==◌, string_Eq, find_b, leb, length,
}

pub record WalletAdapter : Type 0 where
  pub id : String
  pub on_connection_change : Bool
  pub on_network_change : Bool

pub data WalletConnectionStatus : Type 0 where
  connecting connected disconnected error : WalletConnectionStatus

-- a listener of the manager at an adapter
pub data Subscription : Type 0 where
  status_of : String → Subscription
  network_of : String → Subscription

-- `active_unsubscribes` are the subscriptions that can be ended, `emitted` the statuses that the listeners saw, and
-- `cleaned_up` the ids of the adapters that were asked to disconnect when their timeout expired
pub record WalletManager : Type 0 where
  pub adapters : List WalletAdapter
  pub active : Option String
  pub active_unsubscribes : List Subscription
  pub emitted : List WalletConnectionStatus
  pub cleaned_up : List String

-- the constructor; `orderByPriority` calls a function that is declared nowhere as soon as it compares two adapters
unfoldable pub create_manager : List WalletAdapter → Option WalletManager
create_manager adapters =
    if leb (length adapters) 1
    then some (record {
      adapters = adapters;
      active = none;
      active_unsubscribes = [];
      emitted = [];
      cleaned_up = [];
    })
    else none

abbrev pub emit_status : WalletConnectionStatus → WalletManager → WalletManager
emit_status status m = record m { emitted = m.emitted ++ status ∷ [] }

abbrev pub detach_from_active : WalletManager → WalletManager
detach_from_active m = record m { active_unsubscribes = [] }

abbrev pub subscriptions : WalletAdapter → List Subscription
subscriptions adapter =
    (if adapter.on_connection_change then status_of adapter.id ∷ [] else [])
    ++ (if adapter.on_network_change then network_of adapter.id ∷ [] else [])

abbrev pub attach_to_active : WalletAdapter → WalletManager → WalletManager
attach_to_active adapter m = record m {
  active_unsubscribes = m.active_unsubscribes ++ subscriptions adapter;
}

abbrev pub find_adapter : String → WalletManager → Option WalletAdapter
find_adapter id m = find_b (λ candidate. candidate.id == id) m.adapters

-- What happens to a call of the adapter's `connect`, as `withTimeout` sees it.
pub data Answer : Type 0 where
  accepts refuses timer : Answer

-- the first answer settles; the timer counts only if a timeout is set (`timeoutMs` finite and above 0)
pub with_timeout : Bool → List Answer → Option Answer
with_timeout limited [] = none
with_timeout limited (accepts ∷ answers) = some accepts
with_timeout limited (refuses ∷ answers) = some refuses
with_timeout limited (timer ∷ answers) =
    let later = with_timeout limited answers in if limited then some timer else later

-- `connect` up to its `await`; an unknown id throws before anything is changed
unfoldable pub begin_connect : String → WalletManager → Option WalletManager
begin_connect id m = elim (find_adapter id m) [
  | none ↦ none
  | some adapter ↦ some (emit_status connecting (detach_from_active m))
]

-- the call of the adapter's `disconnect` in `withTimeout`, whose answer is ignored
abbrev pub clean_up : WalletAdapter → WalletManager → WalletManager
clean_up adapter m = record m { cleaned_up = m.cleaned_up ++ adapter.id ∷ [] }

-- `connect` behind its `await`
unfoldable pub end_connect : WalletAdapter → Answer → WalletManager → WalletManager
end_connect adapter accepts m =
    emit_status connected (attach_to_active adapter (record m { active = some adapter.id }))
end_connect adapter refuses m = emit_status error m
end_connect adapter timer m = emit_status error (clean_up adapter m)

-- `disconnect`, with what the adapter's own call gives; if that throws, nothing is changed
unfoldable pub disconnect : Bool → WalletManager → WalletManager
disconnect works m = elim m.active [
  | none ↦ m
  | some id ↦
      if works
      then emit_status disconnected (record (detach_from_active m) { active = none })
      else m
]

-- calls that do not overlap: a connection, if its answer comes, and a disconnection
pub data Call : Type 0 where
  connect : String → Bool → List Answer → Call
  leave : Bool → Call

-- a connection from its start to its end; one that does not settle stays where it waits
unfoldable pub connect_with : String → Bool → List Answer → WalletManager → WalletManager
unfolding begin_connect end_connect with_timeout
connect_with id limited answers m = elim (find_adapter id m) [
  | none ↦ m
  | some adapter ↦
      let waiting = emit_status connecting (detach_from_active m) in
      elim (with_timeout limited answers) [
        | none ↦ waiting
        | some answer ↦ end_connect adapter answer waiting
      ]
]

pub after_calls : List Call → WalletManager → WalletManager
unfolding connect_with disconnect
after_calls [] m = m
after_calls (connect id limited answers ∷ calls) m =
    after_calls calls (connect_with id limited answers m)
after_calls (leave works ∷ calls) m = after_calls calls (disconnect works m)
