-- ===== src/Tests/Policies.antt =====
-- Runs of core/cors.hpp, and instances of its theorems.
use boost_taar.Common.{◌≡◌, ◌≢◌, ◌↔◌, refl, true, false, none, some, [], ◌∷◌, codes, inl}
use boost_taar.Core.Cors.{
  Cors, sets, inserts, sets_number, forbids, prepares, keeps_alive, allow_origin, vary,
  allow_credentials_field, origin_allowed, any_origin, origin_edits, credential_edits, expose_edits,
  apply, refused_origin, preflight, join, join_from, allow_methods, allow_headers, max_age_field,
}
use boost_taar.Core.Cors.Policy.{LetsIn, Listed, cors_credentials}
use boost_taar.Core.Cors.Refused.{MayNotCall, preflight_refuses}

abbrev strict : Cors
strict = record {
  allowed_origins = codes "*" ∷ codes "http://a" ∷ [];
  allowed_methods = codes "GET" ∷ codes "PUT" ∷ [];
  allowed_headers = codes "Accept" ∷ [];
  exposed_headers = [];
  allow_credentials = true;
  max_age = 600;
}

cors_runs :
    (apply strict (some (codes "http://a")) []
      ≡ sets allow_origin (codes "http://a")
        ∷ inserts vary (codes "Origin")
        ∷ sets allow_credentials_field (codes "true")
        ∷ [])
    × (apply strict (some (codes "http://b")) [] ≡ [])
    × (apply (record strict { allow_credentials = false }) (some (codes "http://b")) []
        ≡ sets allow_origin (codes "*") ∷ [])
    × (preflight strict none true
        ≡ sets allow_methods (codes "GET, PUT")
          ∷ sets allow_headers (codes "Accept")
          ∷ sets_number max_age_field 600
          ∷ keeps_alive true
          ∷ prepares
          ∷ [])
unfolding apply origin_allowed any_origin origin_edits credential_edits expose_edits preflight
    refused_origin join join_from
cors_runs = (refl, refl, refl, refl)

lets_a : LetsIn (codes "http://a") (apply strict (some (codes "http://a")) [])
unfolding apply origin_allowed any_origin origin_edits credential_edits expose_edits
lets_a = inl refl

cors_credentials_example :
    (some (codes "http://a") ≡ some (codes "http://a"))
    × Listed (codes "http://a") strict.allowed_origins
    × (codes "http://a" ≢ codes "*")
cors_credentials_example =
    cors_credentials strict (some (codes "http://a")) [] true (codes "http://a") refl (λ e. cc e)
      (inl lets_a)

-- An Origin that is the wildcard itself equals the entry for it, so it is reflected.
wildcard_reflected : LetsIn (codes "*") (apply strict (some (codes "*")) [])
unfolding apply origin_allowed origin_edits any_origin credential_edits expose_edits
wildcard_reflected = inl refl

preflight_refuses_example :
    (preflight strict (some (codes "http://b")) true ≡ forbids ∷ keeps_alive true ∷ prepares ∷ [])
    ↔ MayNotCall strict (some (codes "http://b"))
preflight_refuses_example = preflight_refuses strict (some (codes "http://b")) true
