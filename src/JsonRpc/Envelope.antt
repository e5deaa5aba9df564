-- ===== src/JsonRpc/Envelope.antt =====
-- jsonrpc/envelope.hpp, response.hpp and error.hpp: request envelopes and response envelopes.
use boost_taar.Common.{
  ◌≡◌, Bool, true, false, Option, none, some, ◌>>=◌, Bytes, codes, beq, if◌then◌else◌, refl, sym,
  Bool-cases, beq_iff, inl, inr,
}
use boost_taar.JsonRpc.Json.{
  ℤ, negsuc, pos, Value, null, string, number, object, Fields, end, field, member,
}

pub record Envelope : Type 0 where
  pub jsonrpc : Bytes
  pub method : Bytes
  pub id : Option Value
  pub params : Option Value

abbrev pub is_some {ℓ} : {A : Type ℓ} → Option A → Bool
is_some none = false
is_some (some a) = true

abbrev pub is_notification : Envelope → Bool
is_notification env = elim env.id [ none ↦ true | some v ↦ false ]

abbrev pub if_object : Value → Option Fields
if_object (object fs) = some fs
if_object _ = none

abbrev pub if_string : Value → Option Bytes
if_string (string s) = some s
if_string _ = none

abbrev pub version : Bytes
version = codes "2.0"

-- `none` stands for `error::invalid_request`, the only error of the function.
unfoldable pub parse_envelope : Value → Option Envelope
parse_envelope value = do
  obj ← if_object value
  jsonrpc_field ← member (codes "jsonrpc") obj
  jsonrpc_str ← if_string jsonrpc_field
  method_field ← (if beq jsonrpc_str version then member (codes "method") obj else none)
  method_str ← if_string method_field
  some (record {
    jsonrpc = version;
    method = method_str;
    id = member (codes "id") obj;
    params = member (codes "params") obj;
  })

pub data Error : Type 0 where
  success parse_error invalid_request method_not_found invalid_params internal_error : Error

-- `static_cast<int>(code)`
abbrev pub code_of : Error → ℤ
code_of success = pos 0
code_of parse_error = negsuc 32699
code_of invalid_request = negsuc 32599
code_of method_not_found = negsuc 32600
code_of invalid_params = negsuc 32601
code_of internal_error = negsuc 32602

-- `error_category().message(code)`
abbrev pub message_for : Error → Bytes
message_for success = codes "Success."
message_for parse_error = codes "Parse error."
message_for invalid_request = codes "Invalid Request."
message_for method_not_found = codes "Method not found."
message_for invalid_params = codes "Invalid params."
message_for internal_error = codes "Internal error."

unfoldable pub make_response : Value → Value → Value
make_response id result = object (
    field (codes "jsonrpc") (string version)
      (field (codes "id") id (field (codes "result") result end)))

abbrev pub with_data : Option Value → Fields
with_data none = end
with_data (some d) = field (codes "data") d end

unfoldable pub make_error_response : Value → ℤ → Bytes → Option Value → Value
make_error_response id code message info = object (
    field (codes "jsonrpc") (string version) (
      field (codes "id") id (
        field (codes "error")
          (object (
            field (codes "code") (number code)
              (field (codes "message") (string message) (with_data info))))
          end)))

-- The id of an element that failed envelope validation, if it can be recovered.
abbrev pub scalar_id : Value → Bool
scalar_id (string s) = true
scalar_id (number n) = true
scalar_id (Value.real s) = true
scalar_id null = true
scalar_id _ = false

abbrev pub id_or_null : Option Value → Value
id_or_null none = null
id_or_null (some v) = v

unfoldable pub recoverable_id : Value → Value
recoverable_id element =
    id_or_null (do
      obj ← if_object element
      v ← member (codes "id") obj
      if scalar_id v then some v else none)

-- The request object of the specification, as a client writes it.
abbrev optional : Bytes → Option Value → Fields → Fields
optional key none fs = fs
optional key (some v) fs = field key v fs

unfoldable pub envelope_value : Envelope → Value
envelope_value env = object (
    field (codes "jsonrpc") (string env.jsonrpc) (
      field (codes "method") (string env.method)
        (optional (codes "id") env.id (optional (codes "params") env.params end))))

id_of_optional :
    (id params : Option Value)
    → (member (codes "id") (optional (codes "id") id (optional (codes "params") params end)) ≡ id)
      × (member (codes "params") (optional (codes "id") id (optional (codes "params") params end))
          ≡ params)
id_of_optional none none = (refl, refl)
id_of_optional none (some p) = (refl, refl)
id_of_optional (some v) none = (refl, refl)
id_of_optional (some v) (some p) = (refl, refl)

-- An envelope written as a request object with the version 2.0 is parsed back, whether or not it
-- has an id and parameters; one with another version is refused.
pub parse_envelope-envelope_value :
    (env : Envelope)
    → parse_envelope (envelope_value env) ≡ (if beq env.jsonrpc version then some env else none)
unfolding parse_envelope envelope_value
parse_envelope-envelope_value env = elim (Bool-cases (beq env.jsonrpc version)) [
  | inl e ↦
      let same = (beq_iff env.jsonrpc version).0 e in
      let (is_id, are_params) = id_of_optional env.id env.params in
      rw e (λ i.
        some (record {
          jsonrpc = sym same i;
          method = env.method;
          id = is_id i;
          params = are_params i;
        }))
  | inr e ↦ rw e refl
]
