-- ===== src/Injection/Tests.antt =====
-- A container and its child.
use automated_cross_contract.Prelude.{◌+◌, ◌≡◌, refl, none, some, List, [], ◌∷◌, nat_eq, nat_Eq}
use automated_cross_contract.Injection.{
  class_of, Container, empty_container, create_child, register, instance_of, Program, resolve,
}
use automated_cross_contract.Injection.Singletons.{resolve_all, resolve_again}

abbrev program : Program
program = record {
  is_constructor = λ k. nat_eq k 9;
  construct = λ impl n. some (100 + n);
  run_factory = λ f n. none;
}

chain : List Container
unfolding register
chain = create_child (register 1 (class_of 5) empty_container ∷ [])

made_in_the_parent : (resolve program 1 chain 3).answer ≡ instance_of 103
unfolding resolve chain
made_in_the_parent = refl

resolve_again_example :
    (let later = resolve_all program ((9, 4) ∷ (2, 5) ∷ []) (resolve program 1 chain 3).chain in
      resolve program 1 later 8 ≡ record { answer = instance_of 103; chain = later; calls = 8 })
unfolding resolve chain
resolve_again_example = resolve_again program 1 chain 3 8 103 ((9, 4) ∷ (2, 5) ∷ []) refl
