-- ===== src/Core/Cors.antt =====
-- core/cors.hpp: the policy, `apply` and `preflight_handler`. The fields of a message are Boost.Beast's
-- and no code of this repository, so a handler's effect on the response is the list of its calls,
-- and what it reads is an argument: the Origin of the request and the Vary values of the response.
pub mod Policy
pub mod Refused
use boost_taar.Common.{
  ℕ, Bool, true, false, not, ◌&&◌, ◌||◌, Option, none, some, List, [], ◌∷◌, ◌++◌, if◌then◌else◌,
  is_empty, any, Bytes, codes, beq, iequals,
}

pub record Cors : Type 0 where
  pub allowed_origins : List Bytes
  pub allowed_methods : List Bytes
  pub allowed_headers : List Bytes
  pub exposed_headers : List Bytes
  pub allow_credentials : Bool
  pub max_age : ℕ

pub data Field : Type 0 where
  allow_origin allow_credentials_field expose_headers vary allow_methods allow_headers
        max_age_field :
      Field

-- A call on the response: `set` and `insert` of a field, `set` of a printed number, `result`,
-- `keep_alive` with the flag of the request, and `prepare_payload`.
pub data Edit : Type 0 where
  sets inserts : Field → Bytes → Edit
  sets_number : Field → ℕ → Edit
  forbids prepares : Edit
  keeps_alive : Bool → Edit

unfoldable pub origin_allowed : Cors → Bytes → Bool
origin_allowed p origin =
    any (λ o. (beq o (codes "*") && not p.allow_credentials) || beq o origin) p.allowed_origins

-- `join`: the items separated by a comma and a space; `out` is the text so far.
unfoldable pub join_from : Bytes → List Bytes → Bytes
join_from out [] = out
join_from out (i ∷ items) = join_from ((if is_empty out then out else out ++ codes ", ") ++ i) items

unfoldable pub join : List Bytes → Bytes
join items = join_from [] items

-- The constant `any` of `apply`.
unfoldable pub any_origin : Cors → Bool
any_origin p = not p.allow_credentials && any (λ o. beq o (codes "*")) p.allowed_origins

unfoldable pub origin_edits : Cors → Bytes → List Bytes → List Edit
origin_edits p origin varies =
    if any_origin p
    then sets allow_origin (codes "*") ∷ []
    else sets allow_origin origin
      ∷ (if any (λ v. iequals v (codes "Origin")) varies
          then []
          else inserts vary (codes "Origin") ∷ [])

unfoldable pub credential_edits : Cors → List Edit
credential_edits p =
    if p.allow_credentials then sets allow_credentials_field (codes "true") ∷ [] else []

unfoldable pub expose_edits : Cors → List Edit
expose_edits p =
    if is_empty p.exposed_headers then [] else sets expose_headers (join p.exposed_headers) ∷ []

-- `apply`, also the body of `response_filter`.
unfoldable pub apply : Cors → Option Bytes → List Bytes → List Edit
apply p none varies = []
apply p (some origin) varies =
    if not (origin_allowed p origin)
    then []
    else origin_edits p origin varies ++ (credential_edits p ++ expose_edits p)

unfoldable pub refused_origin : Cors → Option Bytes → Bool
refused_origin p none = false
refused_origin p (some origin) = not (origin_allowed p origin)

-- The handler for OPTIONS: the response starts as 204 with no fields.
unfoldable pub preflight : Cors → Option Bytes → Bool → List Edit
preflight p origin keep_alive =
    let allowed =
      apply p origin []
      ++ (sets allow_methods (join p.allowed_methods)
          ∷ sets allow_headers (join p.allowed_headers)
          ∷ sets_number max_age_field p.max_age
          ∷ []) in
    (if refused_origin p origin then forbids ∷ [] else allowed)
    ++ (keeps_alive keep_alive ∷ prepares ∷ [])
