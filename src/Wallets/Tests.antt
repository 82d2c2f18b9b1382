-- ===== src/Wallets/Tests.antt =====
-- Connections of wallets.
use automated_cross_contract.Prelude.{
  ◌≡◌, refl, true, false, none, some, List, [], ◌∷◌, String, arith,
}
use automated_cross_contract.Wallets.{
  WalletAdapter, WalletManager, status_of, connecting, create_manager, accepts, timer, with_timeout,
  begin_connect, end_connect, disconnect, Call, connect, connect_with, after_calls,
}
use automated_cross_contract.Wallets.Forwarding.{IsAttached, after_calls-IsAttached}

program : Unit {0}
unfolding begin_connect end_connect connect_with after_calls with_timeout disconnect create_manager
program = tt

abbrev adapter : String → WalletAdapter
adapter id = record { id = id; on_connection_change = true; on_network_change = false }

abbrev manager : WalletManager
manager = record {
  adapters = adapter "a" ∷ [];
  active = none;
  active_unsubscribes = [];
  emitted = [];
  cleaned_up = [];
}

one_adapter : create_manager (adapter "a" ∷ []) ≡ some manager
unfolding program
one_adapter = refl

abbrev calls : List Call
calls = connect "a" true (accepts ∷ []) ∷ connect "a" true (timer ∷ accepts ∷ []) ∷ []

-- behind a failed connection the adapter of before stays active, though its events are not passed on
stays_active : (after_calls calls manager).active ≡ some "a"
unfolding program
stays_active = refl

asked_to_clean_up : (after_calls calls manager).cleaned_up ≡ "a" ∷ []
unfolding program
asked_to_clean_up = refl

not_passed_on : (after_calls calls manager).active_unsubscribes ≡ []
unfolding program
not_passed_on = refl

two_adapters : create_manager (adapter "a" ∷ adapter "b" ∷ []) ≡ none
unfolding program
two_adapters = refl

after_calls-IsAttached_example : IsAttached (after_calls calls manager)
after_calls-IsAttached_example =
    after_calls-IsAttached calls manager
      (record { owned = tt; one_status = omega arith; one_network = omega arith })

-- two connections of one adapter that overlap: its events come twice
passed_on_twice :
    (let begun : WalletManager = record manager { emitted = connecting ∷ connecting ∷ [] } in
      (end_connect
        (adapter "a")
        accepts
        (end_connect (adapter "a") accepts begun)).active_unsubscribes
      ≡ status_of "a" ∷ status_of "a" ∷ [])
unfolding program
passed_on_twice = refl
