-- ===== src/Schema/Required.antt =====
-- What `validateRpcResultSchema`, packages/rpc/src/response-schema.ts, requires of a result, by method and protocol.
use automated_cross_contract.Prelude.{
  ℕ, ◌≡◌, Bool, refl, sym, ◌∙◌, ap, subst, false, ◌||◌, Option, none, if◌then◌else◌, leb, ◌==◌,
  some, List, [], ◌∷◌, String, inl, inr, Bool-cases, All, arith, string_Eq,
}
use automated_cross_contract.Prelude.Dict
use automated_cross_contract.Schema.{
  own_schemas, FieldType, string_type, number_type, array_type, MethodSchema, schema_of, fields_at,
}

-- a name that every object inherits
pub is_inherited : String → Bool
is_inherited method =
    method == "constructor"
    || method == "toString"
    || method == "toLocaleString"
    || method == "valueOf"
    || method == "hasOwnProperty"
    || method == "isPrototypeOf"
    || method == "propertyIsEnumerable"
    || method == "__proto__"
    || method == "__defineGetter__"
    || method == "__defineSetter__"
    || method == "__lookupGetter__"
    || method == "__lookupSetter__"

-- what a result must have, by method and protocol
abbrev pub requirements : String → ℕ → Option (List (String × FieldType))
requirements method protocol =
    let ledger : String × FieldType = ("latestLedger", number_type) in
    let status : String × FieldType = ("status", string_type) in
    if method == "getHealth"
    then some (status ∷ [])
    else if method == "getNetwork"
    then some (("passphrase", string_type) ∷ ("protocolVersion", number_type) ∷ [])
    else if method == "getLatestLedger"
    then some
        (("id", string_type) ∷ ("protocolVersion", number_type) ∷ ("sequence", number_type) ∷ [])
    else if method == "getLedgerEntries"
    then some (("entries", array_type) ∷ ledger ∷ [])
    else if method == "simulateTransaction"
    then some (ledger ∷ [])
    else if method == "sendTransaction"
    then some (status ∷ ("hash", string_type) ∷ ledger ∷ [])
    else if method == "getTransaction"
    then some (
        if leb 22 protocol
        then status ∷ ledger ∷ ("txHash", string_type) ∷ []
        else status ∷ ledger ∷ [])
    else if is_inherited method
    then some []
    else none

-- the fields that the code requires, if it knows the method
code_requires : String → ℕ → Option (List (String × FieldType))
unfolding schema_of fields_at
code_requires method protocol = elim (schema_of method) [
  | none ↦ none
  | some schema ↦ some (fields_at schema protocol)
]

plain :
    (fields : List (String × FieldType)) (protocol : ℕ)
    → fields_at (record { required = fields; since = [] }) protocol ≡ fields
unfolding fields_at
plain fields protocol = ground arith

-- the other names
unknown_agree :
    (method : String)
    → All (λ name. (method == name) ≡ false) (Dict.keys own_schemas)
    → schema_of method
      ≡ (if is_inherited method then some (record { required = []; since = [] }) else none)
unfolding schema_of is_inherited
unknown_agree method (a, (b, (c, (d, (e, (f, (g, rest))))))) =
    rw (schema_of, a, b, c, d, e, f, g, is_inherited) refl

transaction_agree :
    (protocol : ℕ)
    → code_requires "getTransaction" protocol ≡ requirements "getTransaction" protocol
unfolding code_requires schema_of fields_at
transaction_agree protocol = ground arith

other_agree :
    (method : String) (protocol : ℕ)
    → All (λ name. (method == name) ≡ false) (Dict.keys own_schemas)
    → code_requires method protocol ≡ requirements method protocol
unfolding code_requires
other_agree method protocol h =
    let others = unknown_agree method h in
    let (a, (b, (c, (d, (e, (f, (g, _))))))) = h in
    elim (Bool-cases (is_inherited method)) [
      | inl own ↦ rw (code_requires, others, own, a, b, c, d, e, f, g) (ap some (plain [] protocol))
      | inr unknown ↦ rw (code_requires, others, unknown, a, b, c, d, e, f, g) refl
    ]

requirements_agree :
    (method : String) (protocol : ℕ) → code_requires method protocol ≡ requirements method protocol
unfolding code_requires schema_of
requirements_agree method protocol = elim (Bool-cases (method == "getHealth")) [
  | inl same ↦
      agree_at "getHealth" ((string_Eq.beq_iff method "getHealth").0 same)
        (ap some (plain _ protocol))
  | inr not_0 ↦ elim (Bool-cases (method == "getNetwork")) [
    | inl same ↦
        agree_at "getNetwork" ((string_Eq.beq_iff method "getNetwork").0 same)
          (ap some (plain _ protocol))
    | inr not_1 ↦ elim (Bool-cases (method == "getLatestLedger")) [
      | inl same ↦
          agree_at "getLatestLedger" ((string_Eq.beq_iff method "getLatestLedger").0 same)
            (ap some (plain _ protocol))
      | inr not_2 ↦ elim (Bool-cases (method == "getLedgerEntries")) [
        | inl same ↦
            agree_at "getLedgerEntries" ((string_Eq.beq_iff method "getLedgerEntries").0 same)
              (ap some (plain _ protocol))
        | inr not_3 ↦ elim (Bool-cases (method == "simulateTransaction")) [
          | inl same ↦
              agree_at "simulateTransaction"
                ((string_Eq.beq_iff method "simulateTransaction").0 same)
                (ap some (plain _ protocol))
          | inr not_4 ↦ elim (Bool-cases (method == "sendTransaction")) [
            | inl same ↦
                agree_at "sendTransaction" ((string_Eq.beq_iff method "sendTransaction").0 same)
                  (ap some (plain _ protocol))
            | inr not_5 ↦ elim (Bool-cases (method == "getTransaction")) [
              | inl same ↦
                  agree_at "getTransaction" ((string_Eq.beq_iff method "getTransaction").0 same)
                    (transaction_agree protocol)
              | inr not_6 ↦
                  other_agree method protocol
                    (not_0, (not_1, (not_2, (not_3, (not_4, (not_5, (not_6, tt)))))))
            ]
          ]
        ]
      ]
    ]
  ]
]
  where
    agree_at :
        (name : String)
        → method ≡ name
        → code_requires name protocol ≡ requirements name protocol
        → code_requires method protocol ≡ requirements method protocol
    agree_at name same h =
        subst (λ m. code_requires m protocol ≡ requirements m protocol) (sym same) h

pub requirements-some :
    (method : String) (protocol : ℕ) (schema : MethodSchema)
    → schema_of method ≡ some schema
    → requirements method protocol ≡ some (fields_at schema protocol)
unfolding code_requires
requirements-some method protocol schema known =
    sym (requirements_agree method protocol) ∙ rw (known, code_requires) refl

pub requirements-none :
    (method : String) (protocol : ℕ) → schema_of method ≡ none → requirements method protocol ≡ none
unfolding code_requires
requirements-none method protocol unknown =
    sym (requirements_agree method protocol) ∙ rw (unknown, code_requires) refl
