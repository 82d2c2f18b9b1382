-- ===== src/Schema.antt =====
-- packages/rpc/src/response-schema.ts: `validateRpcResultSchema`. The protocol lines are 20, 21 and 22. `SCHEMAS` is
-- a plain object, so the names that it inherits from `Object.prototype` are found in it too; what is found there
-- has neither `required` nor `since`.
mod Required
mod Checked
mod Tests
use automated_cross_contract.Prelude.{
  ℕ, Bool, true, false, ◌||◌, Option, none, some, List, [], ◌∷◌, ◌++◌, String, if◌then◌else◌, leb,
  nat_eq, nat_Eq, ◌==◌, string_Eq, ◌+s◌, decimal,
}
use automated_cross_contract.Prelude.Dict
use automated_cross_contract.Receipts.{
  Json, null, boolean, number, other_number, text, array, object, Fields, member,
}

-- `FieldType`, with the two other answers of `typeOf`
pub data FieldType : Type 0 where
  string_type number_type array_type object_type null_type other_type : FieldType

abbrev pub type_text : FieldType → String
type_text string_type = "string"
type_text number_type = "number"
type_text array_type = "array"
type_text object_type = "object"
type_text null_type = "null"
type_text other_type = "other"

pub record MethodSchema : Type 0 where
  pub required : List (String × FieldType)
  pub since : List (ℕ × List (String × FieldType))

abbrev pub requires : List (String × FieldType) → Option MethodSchema
requires fields = some (record { required = fields; since = [] })

-- the entries of `SCHEMAS`
abbrev pub own_schemas : List (String × Option MethodSchema)
own_schemas =
    ("getHealth", requires (("status", string_type) ∷ []))
    ∷ ("getNetwork", requires (("passphrase", string_type) ∷ ("protocolVersion", number_type) ∷ []))
    ∷ (
      "getLatestLedger",
      requires
          (("id", string_type) ∷ ("protocolVersion", number_type) ∷ ("sequence", number_type) ∷ []),
    )
    ∷ ("getLedgerEntries", requires (("entries", array_type) ∷ ("latestLedger", number_type) ∷ []))
    ∷ ("simulateTransaction", requires (("latestLedger", number_type) ∷ []))
    ∷ (
      "sendTransaction",
      requires
          (("status", string_type) ∷ ("hash", string_type) ∷ ("latestLedger", number_type) ∷ []),
    )
    ∷ (
      "getTransaction",
      some (record {
        required = ("status", string_type) ∷ ("latestLedger", number_type) ∷ [];
        since = (22, ("txHash", string_type) ∷ []) ∷ [];
      }),
    )
    ∷ []

-- `SCHEMAS[method]`; the second list has the names of `Object.prototype`
unfoldable pub schema_of : String → Option MethodSchema
schema_of method = elim (Dict.get method own_schemas) [
  | some schema ↦ schema
  | none ↦
      if method == "constructor"
        || method == "toString"
        || method == "toLocaleString"
        || method == "valueOf"
        || method == "hasOwnProperty"
        || method == "isPrototypeOf"
        || method == "propertyIsEnumerable"
        || method == "__proto__"
        || method == "__defineGetter__"
        || method == "__defineSetter__"
        || method == "__lookupGetter__"
        || method == "__lookupSetter__"
      then requires []
      else none
]

-- `Object.assign`
abbrev pub assign :
    List (String × FieldType) → List (String × FieldType) → List (String × FieldType)
assign fields [] = fields
assign fields ((name, type) ∷ more) = assign (Dict.put name type fields) more

abbrev pub added : Option (List (String × FieldType)) → List (String × FieldType)
added none = []
added (some fields) = fields

-- the fields required at a protocol: those of each line up to it
unfoldable pub fields_at : MethodSchema → ℕ → List (String × FieldType)
fields_at schema protocol =
    let line : ℕ → List (String × FieldType) → List (String × FieldType) = λ n fields.
      if leb n protocol then assign fields (added (Dict.get n schema.since)) else fields in
    line 22 (line 21 (line 20 schema.required))

abbrev pub type_of : Json → FieldType
type_of null = null_type
type_of (boolean b) = other_type
type_of (number n) = number_type
type_of (other_number t) = number_type
type_of (text t) = string_type
type_of (array js) = array_type
type_of (object fs) = object_type

pub record RpcSchemaError : Type 0 where
  pub message : String
  pub method : String
  pub protocol_version : ℕ
  pub field : Option String

abbrev pub same_type : FieldType → FieldType → Bool
same_type s t = type_text s == type_text t

module _ (method : String) (protocol : ℕ) where
  abbrev pub schema_error : String → Option String → Option RpcSchemaError
  schema_error message field =
      some
        (record { message = message; method = method; protocol_version = protocol; field = field })

  abbrev pub at_protocol : String
  at_protocol = " (protocol " +s decimal protocol +s ")"

  -- the loop over the fields: the first error, if there is one
  pub check_fields : Fields → List (String × FieldType) → Option RpcSchemaError
  check_fields result [] = none
  check_fields result ((name, type) ∷ fields) =
      let rest = check_fields result fields in
      elim (member name result) [
        | none ↦ schema_error (method +s " result is missing " +s name +s at_protocol) (some name)
        | some v ↦
            if same_type (type_of v) type
            then rest
            else schema_error
                (method
                  +s " result field "
                  +s name
                  +s " must be "
                  +s type_text type
                  +s ", received "
                  +s type_text (type_of v)
                  +s at_protocol)
                (some name)
      ]

  unfoldable pub validate_rpc_result_schema : Json → Option RpcSchemaError
  unfolding check_fields schema_of fields_at
  validate_rpc_result_schema result =
      let refused : Option RpcSchemaError =
        schema_error (method +s " result must be an object") none in
      let checked : Option RpcSchemaError = elim (schema_of method) [
        | none ↦ schema_error ("No response schema for method " +s method) none
        | some schema ↦ elim result [
          | object fs ↦ check_fields fs (fields_at schema protocol)
          | _ ↦ refused
        ]
      ] in
      if nat_eq protocol 20 || nat_eq protocol 21 || nat_eq protocol 22
      then checked
      else schema_error
          ("Protocol " +s decimal protocol +s " is outside the supported matrix (20, 21, 22)") none
