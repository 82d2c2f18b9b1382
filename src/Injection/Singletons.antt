-- ===== src/Injection/Singletons.antt =====
-- Resolution of keys by `Container`, packages/sdk/src/container.ts.
use automated_cross_contract.Prelude.{
  ℕ, ◌≡◌, ◌⊎◌, refl, sym, subst, ◌∙◌, ap, true, false, ◌||◌, Option, none, some, List, [], ◌∷◌,
  nat_Eq, nat_eq, Option-cases, Bool-cases, inl, inr, arith,
}
use automated_cross_contract.Prelude.Dict
use automated_cross_contract.Injection.{
  Binding, Container, Resolution, instance_of, thrown, container_error, Resolved, Program, register,
  has, create_from_binding, keep, resolve,
}

abbrev chain_of : Resolved → List Container
chain_of r = r.chain

module _ (p : Program) where
  -- A resolution changes no binding.
  has-resolve :
      (key j : ℕ) (chain : List Container) (n : ℕ)
      → has j (resolve p key chain n).chain ≡ has j chain
  unfolding resolve has
  has-resolve key j [] n = refl
  has-resolve key j (c ∷ parents) n = elim (Option-cases (Dict.get key c.singletons)) [
    | inr (v, here) ↦ rw (here, resolve) refl
    | inl unmade ↦ elim (Option-cases (Dict.get key c.bindings)) [
      | inr (b, bound) ↦ elim (Option-cases (create_from_binding p n b)) [
        | inl lost ↦ rw (unmade, bound, lost, resolve) refl
        | inr (v, made) ↦ rw (unmade, bound, made, resolve) refl
      ]
      | inl unbound ↦ elim (Bool-cases (has key parents)) [
        | inl above ↦
            rw (unmade, unbound, above, resolve)
              (ap (λ b. Dict.has j c.bindings || b) (has-resolve key j parents n))
        | inr nowhere ↦ elim (Bool-cases (p.is_constructor key)) [
          | inr token ↦ rw (unmade, unbound, nowhere, token, resolve) refl
          | inl constructor ↦ elim (Option-cases (p.construct key n)) [
            | inl lost ↦ rw (unmade, unbound, nowhere, constructor, lost, resolve) refl
            | inr (v, made) ↦ rw (unmade, unbound, nowhere, constructor, made, resolve) refl
          ]
        ]
      ]
    ]
  ]

  -- The first container that has an instance of the key or binds it has the instance `v`.
  abbrev Held : ℕ → ℕ → List Container → Type 0
  Held key v [] = ⊥
  Held key v (c ∷ parents) =
      (Dict.get key c.singletons ≡ some v)
      ⊎ ((Dict.get key c.singletons ≡ none)
          × (Dict.get key c.bindings ≡ none)
          × (has key parents ≡ true)
          × Held key v parents)

  Held-resolve :
      (key v : ℕ) (chain : List Container) (m : ℕ)
      → Held key v chain
      → resolve p key chain m ≡ record { answer = instance_of v; chain = chain; calls = m }
  unfolding resolve
  Held-resolve key v [] m h = elim h [ ]
  Held-resolve key v (c ∷ parents) m (inl here) = rw (here, resolve) refl
  Held-resolve key v (c ∷ parents) m (inr (unmade, unbound, above, h)) =
      rw (unmade, unbound, above, resolve, Held-resolve key v parents m h) refl

  instance_inj : (v w : ℕ) → instance_of v ≡ instance_of w → v ≡ w
  instance_inj v w h = cc

  keep-Held :
      (key v : ℕ) (c : Container) (parents : List Container) (n : ℕ) (refused : Resolution)
      (made : Option ℕ)
      → ((w : ℕ) → refused ≡ instance_of w → ⊥)
      → (keep p key c parents n refused made).answer ≡ instance_of v
      → Held key v (keep p key c parents n refused made).chain
  keep-Held key v c parents n refused (some w) never same =
      inl (Dict.get-put_self key w c.singletons ∙ ap some (instance_inj w v same))
  keep-Held key v c parents n refused none never same = absurd (never v same)

  -- A key that has been resolved is held.
  resolve-Held :
      (key v : ℕ) (chain : List Container) (n : ℕ)
      → (resolve p key chain n).answer ≡ instance_of v
      → Held key v (resolve p key chain n).chain
  unfolding resolve
  resolve-Held key v [] n same = absurd cc
  resolve-Held key v (c ∷ parents) n same = elim (Option-cases (Dict.get key c.singletons)) [
    | inr (w, here) ↦
        let told = instance_inj w v (rw (here, resolve) at same) in
        rw (here, resolve) (inl (here ∙ ap some told))
    | inl unmade ↦ elim (Option-cases (Dict.get key c.bindings)) [
      | inr (b, bound) ↦
          rw (unmade, bound, resolve)
            (keep-Held key v c parents n thrown (create_from_binding p n b) (λ w h. absurd cc)
              (rw (unmade, bound, resolve) at same))
      | inl unbound ↦ elim (Bool-cases (has key parents)) [
        | inl above ↦
            let still : has key (resolve p key parents n).chain ≡ true =
              has-resolve key key parents n ∙ above in
            let ih = resolve-Held key v parents n (rw (unmade, unbound, above, resolve) at same) in
            rw (unmade, unbound, above, resolve) (inr (unmade, unbound, still, ih))
        | inr nowhere ↦ elim (Bool-cases (p.is_constructor key)) [
          | inr token ↦ absurd (cc (rw (unmade, unbound, nowhere, token, resolve) at same))
          | inl constructor ↦
              rw (unmade, unbound, nowhere, constructor, resolve)
                (keep-Held key v c parents n (container_error key) (p.construct key n)
                  (λ w h. absurd cc) (rw (unmade, unbound, nowhere, constructor, resolve) at same))
        ]
      ]
    ]
  ]

  -- Another key that is made in the container leaves a key held.
  other-Held :
      (key v j : ℕ) (c : Container) (parents : List Container) (n : ℕ) (refused : Resolution)
      (made : Option ℕ)
      → nat_eq key j ≡ false
      → Held key v (c ∷ parents)
      → Held key v (keep p j c parents n refused made).chain
  other-Held key v j c parents n refused none other h = h
  other-Held key v j c parents n refused (some w) other (inl here) =
      inl (Dict.get-put j key w c.singletons ∙ rw other here)
  other-Held key v j c parents n refused (some w) other (inr (unmade, unbound, above, h)) =
      inr (Dict.get-put j key w c.singletons ∙ rw other unmade, unbound, above, h)

  under-Held :
      (key v : ℕ) (c : Container) (parents after : List Container)
      → has key after ≡ has key parents
      → (Held key v parents → Held key v after)
      → Held key v (c ∷ parents)
      → Held key v (c ∷ after)
  under-Held key v c parents after same keeps (inl here) = inl here
  under-Held key v c parents after same keeps (inr (unmade, unbound, above, h)) =
      inr (unmade, unbound, same ∙ above, keeps h)

  resolve_other-Held :
      (key v j : ℕ) (chain : List Container) (n : ℕ)
      → nat_eq key j ≡ false
      → Held key v chain
      → Held key v (resolve p j chain n).chain
  unfolding resolve
  resolve_other-Held key v j [] n other h = h
  resolve_other-Held key v j (c ∷ parents) n other h =
      elim (Option-cases (Dict.get j c.singletons)) [
        | inr (w, here) ↦ rw (here, resolve) h
        | inl unmade ↦ elim (Option-cases (Dict.get j c.bindings)) [
          | inr (b, bound) ↦
              rw (unmade, bound, resolve)
                (other-Held key v j c parents n thrown (create_from_binding p n b) other h)
          | inl unbound ↦ elim (Bool-cases (has j parents)) [
            | inl above ↦
                rw (unmade, unbound, above, resolve)
                  (under-Held key v c parents (resolve p j parents n).chain
                    (has-resolve j key parents n) (resolve_other-Held key v j parents n other) h)
            | inr nowhere ↦ elim (Bool-cases (p.is_constructor j)) [
              | inr token ↦ rw (unmade, unbound, nowhere, token, resolve) h
              | inl constructor ↦
                  rw (unmade, unbound, nowhere, constructor, resolve)
                    (other-Held key v j c parents n (container_error j) (p.construct j n) other h)
            ]
          ]
        ]
      ]

  -- the containers behind some resolutions, each of a key and at a call
  abbrev pub resolve_all : List (ℕ × ℕ) → List Container → List Container
  resolve_all [] chain = chain
  resolve_all ((j, n) ∷ more) chain = resolve_all more (resolve p j chain n).chain

  resolve_all-Held :
      (key v : ℕ) (more : List (ℕ × ℕ)) (chain : List Container)
      → Held key v chain
      → Held key v (resolve_all more chain)
  resolve_all-Held key v [] chain h = h
  resolve_all-Held key v ((j, n) ∷ more) chain h =
      resolve_all-Held key v more (resolve p j chain n).chain (elim (Bool-cases (nat_eq key j)) [
        | inr other ↦ resolve_other-Held key v j chain n other h
        | inl same ↦
            let key_is : key ≡ j = (nat_Eq.beq_iff key j).0 same in
            subst (λ k. Held key v (resolve p k chain n).chain) key_is
              (subst (Held key v) (sym (ap chain_of (Held-resolve key v chain n h))) h)
      ])

  -- Once a key has been resolved in a container, it is resolved to the same instance again, which constructs nothing
  -- and changes no container: however many resolutions, of whatever keys, come in between, as long as nothing is
  -- bound again, unbound or reset.
  pub resolve_again :
      (key : ℕ) (chain : List Container) (n m v : ℕ) (between : List (ℕ × ℕ))
      → (resolve p key chain n).answer ≡ instance_of v
      → (let later = resolve_all between (resolve p key chain n).chain in
          resolve p key later m ≡ record { answer = instance_of v; chain = later; calls = m })
  resolve_again key chain n m v between made =
      Held-resolve key v (resolve_all between (resolve p key chain n).chain) m (
        resolve_all-Held key v between (resolve p key chain n).chain
          (resolve-Held key v chain n made))

  -- A key that is bound again is made anew by its new binding, whatever was cached for it; the ancestors and the
  -- other keys keep their bindings and instances.
  pub resolve-register :
      (key j : ℕ) (b : Binding) (c : Container) (parents : List Container) (n : ℕ)
      → (resolve p key (register key b c ∷ parents) n
          ≡ keep p key (register key b c) parents n thrown (create_from_binding p n b))
        × (nat_eq j key ≡ false
            → (Dict.get j (register key b c).bindings ≡ Dict.get j c.bindings)
              × (Dict.get j (register key b c).singletons ≡ Dict.get j c.singletons))
  unfolding resolve register
  resolve-register key j b c parents n =
      let evicted : Dict.get key (Dict.remove key c.singletons) ≡ none =
        Dict.get-remove key key c.singletons ∙ ground (arith, nat_Eq.beq_iff key key) in
      (
        rw (evicted, Dict.get-put_self key b c.bindings, resolve) refl,
        λ other. (
          Dict.get-put key j b c.bindings ∙ rw other refl,
          Dict.get-remove key j c.singletons ∙ rw other refl,
        ),
      )
