-- ===== src/Schema/Checked.antt =====
-- The results that `validateRpcResultSchema`, packages/rpc/src/response-schema.ts, lets pass.
use automated_cross_contract.Prelude.{
  ℕ, ◌≤◌, ◌≡◌, refl, sym, ◌∙◌, ap, subst, true, false, ◌||◌, none, some, List, [], ◌∷◌, String, ◌↔◌,
  ◌⊎◌, inl, inr, Bool-cases, Option-cases, nat_eq, All, arith, string_Eq,
}
use automated_cross_contract.Receipts.{
  Json, null, boolean, number, other_number, text, array, object, Fields, member,
}
use automated_cross_contract.Schema.Required.{requirements, requirements-some, requirements-none}
use automated_cross_contract.Schema.{
  FieldType, MethodSchema, schema_of, fields_at, type_of, same_type, check_fields,
  validate_rpc_result_schema,
}

json_inj : (v w : Json) → some v ≡ some w → v ≡ w
json_inj v w h = cc

fields_inj : (v w : List (String × FieldType)) → some v ≡ some w → v ≡ w
fields_inj v w h = cc

object_inj : (f g : Fields) → object f ≡ object g → f ≡ g
object_inj f g h = cc

Supported-cases :
    (p : ℕ)
    → (((nat_eq p 20 || nat_eq p 21 || nat_eq p 22) ≡ true) × (20 ≤ p) × (p ≤ 22))
      ⊎ (((nat_eq p 20 || nat_eq p 21 || nat_eq p 22) ≡ false) × ((20 ≤ p) × (p ≤ 22) → ⊥))
Supported-cases p = elim (Bool-cases (nat_eq p 20 || nat_eq p 21 || nat_eq p 22)) [
  | inl inside ↦ inl (inside, ground arith, ground arith)
  | inr outside ↦ inr (outside, λ (a, b). ground (arith, a, b))
]

module _ (method : String) (protocol : ℕ) where
  -- an object has a field of a type
  abbrev pub HasField : Fields → String × FieldType → Type 0
  HasField fs (name, type) =
      (v : Json) × (member name fs ≡ some v) × (same_type (type_of v) type ≡ true)

  check_fields_iff :
      (fs : Fields) (fields : List (String × FieldType))
      → (check_fields method protocol fs fields ≡ none) ↔ All (HasField fs) fields
  unfolding check_fields
  check_fields_iff fs [] = (λ h. tt, λ h. refl)
  check_fields_iff fs ((name, type) ∷ fields) = elim (Option-cases (member name fs)) [
    | inl nothing ↦ (
      λ h. absurd (cc (rw (nothing, check_fields) at h)),
      λ ((v, here, t), later). absurd (cc (nothing, here)),
    )
    | inr (v, here) ↦ elim (Bool-cases (same_type (type_of v) type)) [
      | inl same ↦ (
        λ h. ((v, here, same), (check_fields_iff fs fields).0 (rw (here, same, check_fields) at h)),
        λ (first, later). rw (here, same, check_fields) ((check_fields_iff fs fields).1 later),
      )
      | inr other ↦ (
        λ h. absurd (cc (rw (here, other, check_fields) at h)),
        λ ((w, there, t), later).
            let same : v ≡ w = json_inj v w (sym here ∙ there) in
            absurd (cc (ap (λ x. same_type (type_of x) type) same, other, t)),
      )
    ]
  ]

  -- The protocol is 20, 21 or 22, the method has a list of requirements at it, and the result is an object with
  -- every field required, of its type.
  pub record IsChecked (result : Json) : Type 0 where
    pub supported : (20 ≤ protocol) × (protocol ≤ 22)
    pub fields : List (String × FieldType)
    pub known : requirements method protocol ≡ some fields
    pub fs : Fields
    pub is_object : result ≡ object fs
    pub complete : All (HasField fs) fields

  -- The validation passes exactly the results that are checked: those of a supported protocol and a known method
  -- with every required field, of the right type. The requirements are those of a table by method and protocol, in
  -- which `getTransaction` has `txHash` from protocol 22 on, and which knows the names that every object inherits,
  -- such as `toString`, as methods without requirements.
  pub validate_rpc_result_schema_iff :
      (result : Json)
      → (validate_rpc_result_schema method protocol result ≡ none) ↔ IsChecked result
  unfolding validate_rpc_result_schema
  validate_rpc_result_schema_iff result = elim (Supported-cases protocol) [
    | inr (outside, out) ↦ (
      λ h. absurd (cc (rw (outside, validate_rpc_result_schema) at h)),
      λ c. absurd (out c.supported),
    )
    | inl (inside, low, high) ↦ elim (Option-cases (schema_of method)) [
      | inl unknown ↦ (
        λ h. absurd (cc (rw (inside, unknown, validate_rpc_result_schema) at h)),
        λ c. absurd (cc (requirements-none method protocol unknown, c.known)),
      )
      | inr (schema, known) ↦ of_schema inside (low, high) schema known result
    ]
  ]
    where
      of_schema :
          (nat_eq protocol 20 || nat_eq protocol 21 || nat_eq protocol 22) ≡ true
          → (20 ≤ protocol) × (protocol ≤ 22)
          → (schema : MethodSchema) → schema_of method ≡ some schema
          → (result : Json)
          → (validate_rpc_result_schema method protocol result ≡ none) ↔ IsChecked result
      of_schema inside supported schema known (object fs) = (
        λ h. record {
          supported = supported;
          fields = fields_at schema protocol;
          known = requirements-some method protocol schema known;
          fs = fs;
          is_object = refl;
          complete =
              (check_fields_iff fs (fields_at schema protocol)).0
                (rw (inside, known, validate_rpc_result_schema) at h);
        },
        λ c.
            let same : c.fields ≡ fields_at schema protocol =
              fields_inj c.fields (fields_at schema protocol)
                (sym c.known ∙ requirements-some method protocol schema known) in
            let same_fs : c.fs ≡ fs = object_inj c.fs fs (sym c.is_object) in
            rw (inside, known, validate_rpc_result_schema)
              ((check_fields_iff fs (fields_at schema protocol)).1 (
                subst (λ g. All (HasField g) (fields_at schema protocol)) same_fs
                  (subst (All (HasField c.fs)) same c.complete))),
      )
      of_schema inside supported schema known null = (
        λ h. absurd (cc (rw (inside, known, validate_rpc_result_schema) at h)),
        λ c. absurd (cc c.is_object),
      )
      of_schema inside supported schema known (boolean b) = (
        λ h. absurd (cc (rw (inside, known, validate_rpc_result_schema) at h)),
        λ c. absurd (cc c.is_object),
      )
      of_schema inside supported schema known (number n) = (
        λ h. absurd (cc (rw (inside, known, validate_rpc_result_schema) at h)),
        λ c. absurd (cc c.is_object),
      )
      of_schema inside supported schema known (other_number t) = (
        λ h. absurd (cc (rw (inside, known, validate_rpc_result_schema) at h)),
        λ c. absurd (cc c.is_object),
      )
      of_schema inside supported schema known (text t) = (
        λ h. absurd (cc (rw (inside, known, validate_rpc_result_schema) at h)),
        λ c. absurd (cc c.is_object),
      )
      of_schema inside supported schema known (array js) = (
        λ h. absurd (cc (rw (inside, known, validate_rpc_result_schema) at h)),
        λ c. absurd (cc c.is_object),
      )
