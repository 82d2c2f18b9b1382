-- ===== src/Receipts.antt =====
-- packages/sdk/src/soroban-resurrect.ts, `parseExecutionReceipt`, and the JSON of a receipt. What
-- `JSON.parse` makes of a text is a parameter: a value, or nothing where it throws. A number that is not a
-- natural one is kept as its text.
mod Validity
mod Tests
use automated_cross_contract.Prelude.{
  ℕ, Bool, true, false, not, ◌||◌, Option, none, some, List, [], ◌∷◌, String, if◌then◌else◌, ◌==◌,
  string_Eq, nat_eq, ◌+s◌, decimal,
}
use automated_cross_contract.Submission.{
  Answer, resolved, rejected, Failure, soroban, foreign, invalid_xdr,
}
use automated_cross_contract.Execution.{
  BatchStatus, pending, success, failed, RestoreBatchResult, RestoreExecutionReceipt,
}

mutual
  pub data Json : Type 0 where
    null : Json
    boolean : Bool → Json
    number : ℕ → Json
    other_number : String → Json
    text : String → Json
    array : Jsons → Json
    object : Fields → Json

  pub data Jsons : Type 0 where
    nil : Jsons
    cons : Json → Jsons → Jsons

  pub data Fields : Type 0 where
    done : Fields
    field : String → Json → Fields → Fields

-- a member of an object; the names are distinct
abbrev pub member : String → Fields → Option Json
member name done = none
member name (field n v rest) = if name == n then some v else member name rest

-- `typeof x === 'number'`, with the number's text
abbrev pub number_text : Option Json → Option String
number_text (some (number n)) = some (decimal n)
number_text (some (other_number t)) = some t
number_text _ = none

abbrev pub is_number : Option Json → Bool
is_number (some (number n)) = true
is_number (some (other_number t)) = true
is_number _ = false

abbrev pub is_text : Option Json → Bool
is_text (some (text s)) = true
is_text _ = false

abbrev pub is_status : Option Json → Bool
is_status (some (text s)) = s == "pending" || s == "success" || s == "failed"
is_status _ = false

abbrev pub is_version_one : Option Json → Bool
is_version_one (some (number n)) = nat_eq n 1
is_version_one _ = false

abbrev pub invalid : String → Failure
invalid reason =
    soroban invalid_xdr
      ("Invalid execution receipt: " +s reason
        +s ". Fix: pass the JSON produced by JSON.stringify(createExecutionReceipt(...)).")
      none

-- The checks of one batch; `none` where all hold. Reading a member of `null` throws a `TypeError`.
pub check_batch : Json → Option Failure
check_batch null = some (foreign "Cannot read properties of null (reading 'batchIndex')")
check_batch (object f) = elim (number_text (member "batchIndex" f)) [
  | none ↦ some (invalid "batch is missing batchIndex")
  | some n ↦
      if not (is_text (member "transactionXDR" f))
      then some (invalid ("batch " +s n +s " is missing transactionXDR"))
      else if not (is_number (member "keysRestored" f))
      then some (invalid ("batch " +s n +s " is missing keysRestored"))
      else if not (is_status (member "status" f))
      then some (invalid ("batch " +s n +s " has an unknown status"))
      else none
]
check_batch _ = some (invalid "batch is missing batchIndex")

pub check_batches : Jsons → Option Failure
check_batches nil = none
check_batches (cons batch batches) =
    let rest = check_batches batches in elim (check_batch batch) [ none ↦ rest | some e ↦ some e ]

-- the checks of `batches`
pub check_list : Fields → Option Json → Answer Json
unfolding check_batch check_batches
check_list f (some (array batches)) = elim (check_batches batches) [
  | none ↦ resolved (object f)
  | some e ↦ rejected e
]
check_list f _ = rejected (invalid "missing batches array")

-- the checks of an object
pub check_receipt : Fields → Answer Json
unfolding check_list
check_receipt f =
    if not (is_version_one (member "version" f))
    then rejected (invalid "unsupported version")
    else if not (is_text (member "sourceAccountID" f))
    then rejected (invalid "missing sourceAccountID")
    else check_list f (member "batches" f)

-- The value given is that of `JSON.parse`. An array is an object without the members.
unfoldable pub parse_execution_receipt : Option Json → Answer Json
unfolding check_receipt
parse_execution_receipt none = rejected (invalid "not valid JSON")
parse_execution_receipt (some (object f)) = check_receipt f
parse_execution_receipt (some (array items)) = rejected (invalid "unsupported version")
parse_execution_receipt (some _) = rejected (invalid "expected an object")

abbrev pub status_text : BatchStatus → String
status_text pending = "pending"
status_text success = "success"
status_text failed = "failed"

-- a member that is left out where it is `undefined`
abbrev pub optional : String → Option String → Fields → Fields
optional name none rest = rest
optional name (some s) rest = field name (text s) rest

abbrev pub batch_json : RestoreBatchResult → Json
batch_json b = object (
    field "batchIndex" (number b.batch_index) (
      field "transactionXDR" (text b.transaction_xdr) (
        field "keysRestored" (number b.keys_restored) (
          field "status" (text (status_text b.status))
            (optional "txHash" b.tx_hash (optional "error" b.error done))))))

abbrev pub batches_json : List RestoreBatchResult → Jsons
batches_json [] = nil
batches_json (b ∷ bs) = cons (batch_json b) (batches_json bs)

abbrev pub receipt_json : RestoreExecutionReceipt → Json
receipt_json r = object (
    field "version" (number r.version) (
      field "sourceAccountID" (text r.source_account_id)
        (field "batches" (array (batches_json r.batches)) done)))
