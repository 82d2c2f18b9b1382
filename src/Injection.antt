-- ===== src/Injection.antt =====
-- packages/sdk/src/container.ts: `Container`. Keys and instances are numbers; a container with its ancestors is a list,
-- the container first. What a constructor or a factory gives at its n-th call is a parameter (`none` where it
-- throws). A factory that resolves further keys while it runs is not covered.
mod Singletons
mod Tests
use automated_cross_contract.Prelude.{
  ℕ, ◌+◌, Bool, true, false, ◌||◌, Option, none, some, List, [], ◌∷◌, if◌then◌else◌, nat_Eq,
}
use automated_cross_contract.Prelude.Dict

pub data Binding : Type 0 where
  class_of : ℕ → Binding
  factory : ℕ → Binding
  value : ℕ → Binding

pub record Container : Type 0 where
  pub bindings : List (ℕ × Binding)
  pub singletons : List (ℕ × ℕ)

abbrev pub empty_container : Container
empty_container = record { bindings = []; singletons = [] }

-- an instance; an error of the binding's own; or a `ContainerError`
pub data Resolution : Type 0 where
  instance_of : ℕ → Resolution
  thrown : Resolution
  container_error : ℕ → Resolution

pub record Resolved : Type 0 where
  pub answer : Resolution
  pub chain : List Container
  pub calls : ℕ

-- `is_constructor` tells the keys that are classes from tokens.
pub record Program : Type 0 where
  pub is_constructor : ℕ → Bool
  pub construct : ℕ → ℕ → Option ℕ
  pub run_factory : ℕ → ℕ → Option ℕ

-- `_register`
unfoldable pub register : ℕ → Binding → Container → Container
register key binding c = record {
  bindings = Dict.put key binding c.bindings;
  singletons = Dict.remove key c.singletons;
}

unfoldable pub unbind : ℕ → Container → Container
unbind key c = record {
  bindings = Dict.remove key c.bindings;
  singletons = Dict.remove key c.singletons;
}

pub has : ℕ → List Container → Bool
has key [] = false
has key (c ∷ parents) = let above = has key parents in Dict.has key c.bindings || above

abbrev pub create_child : List Container → List Container
create_child chain = empty_container ∷ chain

abbrev pub reset : Container → Container
reset c = empty_container

abbrev pub remember : ℕ → ℕ → Container → Container
remember key v c = record c { singletons = Dict.put key v c.singletons }

module _ (p : Program) where
  -- `_createFromBinding`, at the n-th call
  abbrev pub create_from_binding : ℕ → Binding → Option ℕ
  create_from_binding n (class_of impl) = p.construct impl n
  create_from_binding n (factory f) = p.run_factory f n
  create_from_binding n (value v) = some v

  -- a container that creates an instance of the key, and keeps it
  abbrev pub keep : ℕ → Container → List Container → ℕ → Resolution → Option ℕ → Resolved
  keep key c parents n refused (some v) = record {
    answer = instance_of v;
    chain = remember key v c ∷ parents;
    calls = n + 1;
  }
  keep key c parents n refused none = record {
    answer = refused;
    chain = c ∷ parents;
    calls = n + 1;
  }

  -- no binding: a class is constructed, a token cannot be resolved
  abbrev pub fall_back : ℕ → Container → List Container → ℕ → Resolved
  fall_back key c parents n =
      if p.is_constructor key
      then keep key c parents n (container_error key) (p.construct key n)
      else record { answer = container_error key; chain = c ∷ parents; calls = n }

  abbrev pub under : Container → Resolved → Resolved
  under c r = record r { chain = c ∷ r.chain }

  pub resolve : ℕ → List Container → ℕ → Resolved
  unfolding has
  resolve key [] n = record { answer = container_error key; chain = []; calls = n }
  resolve key (c ∷ parents) n =
      let above = under c (resolve key parents n) in
      elim (Dict.get key c.singletons) [
        | some v ↦ record { answer = instance_of v; chain = c ∷ parents; calls = n }
        | none ↦ elim (Dict.get key c.bindings) [
          | some binding ↦ keep key c parents n thrown (create_from_binding n binding)
          | none ↦ if has key parents then above else fall_back key c parents n
        ]
      ]
