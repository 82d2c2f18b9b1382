-- ===== src/Responses/Accepted.antt =====
-- The responses that `parseJsonRpcResult`, packages/rpc/src/json-rpc-response.ts, accepts, and its errors.
use automated_cross_contract.Prelude.{
  ℕ, ◌≡◌, refl, subst, true, false, Option, none, some, String, inl, inr, Bool-cases, Option-cases,
}
use automated_cross_contract.Receipts.{
  Json, null, boolean, number, other_number, text, array, object, Fields, member,
}
use automated_cross_contract.Responses.{
  RpcResponseErrorKind, invalid_content_type, malformed_json, json_rpc_error, Parsed, parsed,
  failed, Read, value, syntax_error, is_json_content, parse_json_rpc_response, error_member,
  result_of_envelope, parse_json_rpc_result,
}

module _ (parse : String → Read) where
  -- The body is declared as JSON and parses to an object without an error, with this result.
  pub record IsAccepted (body : String) (content_type : Option String) (v : Json) : Type 0 where
    pub declared : is_json_content parse content_type ≡ true
    pub fields : Fields
    pub read : parse body ≡ value (object fields)
    pub no_error : error_member parse fields ≡ none
    pub result : member "result" fields ≡ some v

  -- why a response is refused, for each kind of error
  abbrev pub IsRefused : String → Option String → RpcResponseErrorKind → Type 0
  IsRefused body content_type invalid_content_type = is_json_content parse content_type ≡ false
  IsRefused body content_type json_rpc_error =
      (fields : Fields) × (parse body ≡ value (object fields))
      × (e : Json) × (error_member parse fields ≡ some e)
  IsRefused body content_type malformed_json =
      (is_json_content parse content_type ≡ true)
      × ((fields : Fields)
          → parse body ≡ value (object fields)
          → (error_member parse fields ≡ none) × (member "result" fields ≡ none))

  abbrev pub Explains : String → Option String → Parsed Json → Type 0
  Explains body content_type (parsed v) = IsAccepted body content_type v
  Explains body content_type (failed e) = IsRefused body content_type e.kind

  envelope-Explains :
      (body : String) (content_type : Option String) (status : ℕ) (fields : Fields)
      → is_json_content parse content_type ≡ true
      → parse body ≡ value (object fields)
      → Explains body content_type (result_of_envelope parse fields content_type status)
  unfolding result_of_envelope
  envelope-Explains body content_type status fields declared read =
      elim (Option-cases (error_member parse fields)) [
        | inr (e, here) ↦ rw (here, result_of_envelope) (fields, read, e, here)
        | inl no_error ↦ elim (Option-cases (member "result" fields)) [
          | inr (v, there) ↦
              rw (no_error, there, result_of_envelope)
                (record {
                  declared = declared;
                  fields = fields;
                  read = read;
                  no_error = no_error;
                  result = there;
                })
          | inl nothing ↦
              rw (no_error, nothing, result_of_envelope)
                (
                  declared,
                  λ fs again.
                      let same : fields ≡ fs = cc in
                      subst (λ g. (error_member parse g ≡ none) × (member "result" g ≡ none)) same
                        (no_error, nothing),
                )
        ]
      ]

  -- A result is accepted exactly as declared, and each kind of error says what is wrong with the response: the
  -- content type, whatever the body; an error object, whatever the status; or a body that is no object with a result.
  pub parse_json_rpc_result-Explains :
      (body : String) (content_type : Option String) (status : ℕ)
      → Explains body content_type (parse_json_rpc_result parse body content_type status)
  unfolding parse_json_rpc_result parse_json_rpc_response
  parse_json_rpc_result-Explains body content_type status =
      elim (Bool-cases (is_json_content parse content_type)) [
        | inr undeclared ↦ rw (undeclared, parse_json_rpc_result) undeclared
        | inl declared ↦ read_as declared (parse body) refl
      ]
    where
      read_as :
          is_json_content parse content_type ≡ true
          → (r : Read) → parse body ≡ r
          → Explains body content_type (parse_json_rpc_result parse body content_type status)
      read_as declared (syntax_error reason) read =
          rw (declared, read, parse_json_rpc_result) (declared, λ fs again. absurd cc)
      read_as declared (value (object fields)) read =
          rw (declared, read, parse_json_rpc_result)
            (envelope-Explains body content_type status fields declared read)
      read_as declared (value null) read =
          rw (declared, read, parse_json_rpc_result) (declared, λ fs again. absurd cc)
      read_as declared (value (boolean b)) read =
          rw (declared, read, parse_json_rpc_result) (declared, λ fs again. absurd cc)
      read_as declared (value (number n)) read =
          rw (declared, read, parse_json_rpc_result) (declared, λ fs again. absurd cc)
      read_as declared (value (other_number t)) read =
          rw (declared, read, parse_json_rpc_result) (declared, λ fs again. absurd cc)
      read_as declared (value (text t)) read =
          rw (declared, read, parse_json_rpc_result) (declared, λ fs again. absurd cc)
      read_as declared (value (array js)) read =
          rw (declared, read, parse_json_rpc_result) (declared, λ fs again. absurd cc)
