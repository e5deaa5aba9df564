-- ===== src/Core/Cors/Policy.antt =====
-- core/cors.hpp: which origins a response lets in.
use boost_taar.Common.{
  ℕ, ◌≡◌, ◌≢◌, ◌⊎◌, refl, ◌∙◌, ap, sym, Bool, true, false, ◌&&◌, ◌||◌, Option, none, some, List, [],
  ◌∷◌, ◌++◌, arith, if◌then◌else◌, any, Bytes, codes, beq, beq_iff, iequals, Bool-cases, inl, inr,
}
use boost_taar.Core.Cors.{
  Cors, allow_origin, vary, allow_methods, allow_headers, max_age_field, Edit, sets, inserts,
  sets_number, forbids, prepares, keeps_alive, origin_allowed, any_origin, origin_edits,
  credential_edits, expose_edits, apply, refused_origin, preflight, join,
}

-- The value that a call gives to Access-Control-Allow-Origin.
abbrev pub origin_of : Edit → Option Bytes
origin_of (sets allow_origin v) = some v
origin_of _ = none

-- Some call gives that value.
abbrev pub LetsIn : Bytes → List Edit → Type 0
LetsIn v [] = ⊥
LetsIn v (e ∷ es) = (origin_of e ≡ some v) ⊎ LetsIn v es

-- The text is one of the list.
abbrev pub Listed : Bytes → List Bytes → Type 0
Listed v [] = ⊥
Listed v (o ∷ os) = (o ≡ v) ⊎ Listed v os

-- The response varies on Origin: it does before the calls, or one of them adds it.
abbrev pub Adds : List Edit → Type 0
Adds [] = ⊥
Adds (e ∷ es) = (e ≡ inserts vary (codes "Origin")) ⊎ Adds es

LetsIn-append : (v : Bytes) (xs ys : List Edit) → LetsIn v (xs ++ ys) → LetsIn v xs ⊎ LetsIn v ys
LetsIn-append v [] ys h = inr h
LetsIn-append v (x ∷ xs) ys (inl h) = inl (inl h)
LetsIn-append v (x ∷ xs) ys (inr h) = elim (LetsIn-append v xs ys h) [
  | inl k ↦ inl (inr k)
  | inr k ↦ inr k
]

rest_lets_none : (p : Cors) (v : Bytes) → LetsIn v (credential_edits p ++ expose_edits p) → ⊥
unfolding credential_edits expose_edits
rest_lets_none p v h = ground (arith, h)

-- Who is let in, and by which value.
record Admitted (p : Cors) (origin : Option Bytes) (v : Bytes) : Type 0 where
  asking : Bytes
  sent : origin ≡ some asking
  passes : origin_allowed p asking ≡ true
  answer : v ≡ (if any_origin p then codes "*" else asking)

origin_lets :
    (p : Cors) (o v : Bytes) (varies : List Bytes)
    → LetsIn v (origin_edits p o varies)
    → v ≡ (if any_origin p then codes "*" else o)
unfolding origin_edits
origin_lets p o v varies h = elim (Bool-cases (any_origin p)) [
  | inl e ↦ ground (arith, e, h)
  | inr e ↦ ground (arith, e, h)
]

apply-Admitted :
    (p : Cors) (origin : Option Bytes) (varies : List Bytes) (v : Bytes)
    → LetsIn v (apply p origin varies)
    → Admitted p origin v
unfolding apply
apply-Admitted p none varies v h = absurd h
apply-Admitted p (some o) varies v h = elim (Bool-cases (origin_allowed p o)) [
  | inr e ↦ absurd (rw (e, apply) at h)
  | inl e ↦ record {
    asking = o;
    sent = refl;
    passes = e;
    answer =
        elim (LetsIn-append v (origin_edits p o varies) (credential_edits p ++ expose_edits p)
          (rw (e, apply) at h)) [
            | inl k ↦ origin_lets p o v varies k
            | inr k ↦ absurd (rest_lets_none p v k)
          ];
  }
]

-- The calls of a preflight that is answered.
abbrev allowed_edits : Cors → Option Bytes → List Edit
allowed_edits p origin =
    apply p origin []
    ++ (sets allow_methods (join p.allowed_methods)
        ∷ sets allow_headers (join p.allowed_headers)
        ∷ sets_number max_age_field p.max_age
        ∷ [])

methods_let_none :
    (m h v : Bytes) (n : ℕ)
    → LetsIn v (sets allow_methods m ∷ sets allow_headers h ∷ sets_number max_age_field n ∷ [])
    → ⊥
methods_let_none m h v n l = ground (arith, l)

end_lets_none : (k : Bool) (v : Bytes) → LetsIn v (keeps_alive k ∷ prepares ∷ []) → ⊥
end_lets_none k v l = ground (arith, l)

preflight-Admitted :
    (p : Cors) (origin : Option Bytes) (keep_alive : Bool) (v : Bytes)
    → LetsIn v (preflight p origin keep_alive)
    → Admitted p origin v
unfolding preflight
preflight-Admitted p origin keep_alive v h =
    elim (LetsIn-append v (if refused_origin p origin then forbids ∷ [] else allowed_edits p origin)
      _ h) [
        | inr k ↦ absurd (end_lets_none keep_alive v k)
        | inl k ↦ elim (Bool-cases (refused_origin p origin)) [
          | inl e ↦ absurd (ground (arith, e, k))
          | inr e ↦ elim (LetsIn-append v (apply p origin []) _ (rw e at k)) [
            | inl m ↦ apply-Admitted p origin [] v m
            | inr m ↦
                absurd
                  (methods_let_none (join p.allowed_methods) (join p.allowed_headers) v p.max_age m)
          ]
        ]
      ]

listed :
    (origins : List Bytes) (v : Bytes)
    → any (λ o. (beq o (codes "*") && false) || beq o v) origins ≡ true
    → Listed v origins
listed [] v h = absurd (cc h)
listed (o ∷ origins) v h = elim (Bool-cases (beq o v)) [
  | inl e ↦ inl ((beq_iff o v).0 e)
  | inr e ↦ inr (listed origins v (ground (arith, h, e)))
]

credentials_name :
    (p : Cors) (origin : Option Bytes) (v : Bytes)
    → p.allow_credentials ≡ true
    → Admitted p origin v
    → (origin ≡ some v) × Listed v p.allowed_origins
unfolding origin_allowed any_origin
credentials_name p origin v c h =
    let same : v ≡ h.asking = h.answer ∙ (rw c refl) in
    (h.sent ∙ ap some (sym same), rw same (listed p.allowed_origins h.asking (rw c at h.passes)))

-- When credentials are allowed and the Origin of the request is not itself *, the value that a
-- response or the answer to a preflight gives to Access-Control-Allow-Origin is the origin of the
-- request, this origin is listed, and it is not the wildcard.
pub cors_credentials :
    (p : Cors) (origin : Option Bytes) (varies : List Bytes) (keep_alive : Bool) (v : Bytes)
    → p.allow_credentials ≡ true
    → origin ≢ some (codes "*")
    → LetsIn v (apply p origin varies) ⊎ LetsIn v (preflight p origin keep_alive)
    → (origin ≡ some v) × Listed v p.allowed_origins × (v ≢ codes "*")
cors_credentials p origin varies keep_alive v c n h =
    let admitted : Admitted p origin v = elim h [
      | inl k ↦ apply-Admitted p origin varies v k
      | inr k ↦ preflight-Admitted p origin keep_alive v k
    ] in
    let (sent, there) = credentials_name p origin v c admitted in
    (sent, there, λ e. n (sent ∙ ap some e))

-- If a response names an origin other than by the wildcard, then caches are told: a Vary of Origin
-- stands there before, or it is added.
pub apply-Vary :
    (p : Cors) (origin : Option Bytes) (varies : List Bytes) (v : Bytes)
    → LetsIn v (apply p origin varies)
    → v ≢ codes "*"
    → (any (λ w. iequals w (codes "Origin")) varies ≡ true) ⊎ Adds (apply p origin varies)
unfolding apply origin_edits
apply-Vary p none varies v h n = absurd h
apply-Vary p (some o) varies v h n = elim (Bool-cases (origin_allowed p o)) [
  | inr e ↦ absurd (rw (e, apply) at h)
  | inl e ↦ elim (Bool-cases (any_origin p)) [
    | inl m ↦ absurd (n ((apply-Admitted p (some o) varies v h).answer ∙ (rw m refl)))
    | inr m ↦ elim (Bool-cases (any (λ w. iequals w (codes "Origin")) varies)) [
      | inl k ↦ inl k
      | inr k ↦ inr (rw (e, apply) (rw (m, origin_edits) (rw k (inr (inl refl)))))
    ]
  ]
]
