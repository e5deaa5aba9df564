-- ===== src/Core/Cors/Refused.antt =====
-- core/cors.hpp: which preflights are refused.
use boost_taar.Common.{
  ◌≡◌, ◌↔◌, ◌⊎◌, refl, Bool, true, false, not, ◌&&◌, ◌||◌, Option, none, some, List, [], ◌∷◌, ◌++◌,
  arith, if◌then◌else◌, any, Bytes, codes, beq, beq_iff, iequals, Bool-cases, inl, inr,
}
use boost_taar.Core.Cors.{
  Cors, allow_origin, vary, Edit, sets, inserts, forbids, prepares, keeps_alive, origin_allowed,
  any_origin, origin_edits, credential_edits, expose_edits, apply, refused_origin, preflight,
}
use boost_taar.Core.Cors.Policy.{Listed}

-- The first call of `apply`, if there is one, sets Access-Control-Allow-Origin.
apply_head :
    (p : Cors) (origin : Option Bytes) (varies : List Bytes)
    → (apply p origin varies ≡ [])
      ⊎ ((v : Bytes) × (es : List Edit) × (apply p origin varies ≡ sets allow_origin v ∷ es))
unfolding apply origin_edits
apply_head p none varies = inl refl
apply_head p (some o) varies = elim (Bool-cases (origin_allowed p o)) [
  | inr e ↦ inl (rw e refl)
  | inl e ↦ elim (Bool-cases (any_origin p)) [
    | inl m ↦ inr (codes "*", credential_edits p ++ expose_edits p, rw e (rw m refl))
    | inr m ↦ inr (
      o,
      (if any (λ w. iequals w (codes "Origin")) varies
            then []
            else inserts vary (codes "Origin") ∷ [])
          ++ (credential_edits p ++ expose_edits p),
      rw e (rw m refl),
    )
  ]
]

-- Who may not call: a request with an origin that is not listed, where the wildcard is not listed
-- or does not count since credentials are allowed.
abbrev pub MayNotCall : Cors → Option Bytes → Type 0
MayNotCall p none = ⊥
MayNotCall p (some o) =
    ¬ Listed o p.allowed_origins
    × ((p.allow_credentials ≡ true) ⊎ ¬ Listed (codes "*") p.allowed_origins)

admits : Bool → Bytes → List Bytes → Bool
admits c origin origins = any (λ o. (beq o (codes "*") && not c) || beq o origin) origins

admits-Listed :
    (c : Bool) (origin : Bytes) (origins : List Bytes)
    → admits c origin origins ≡ true
    → Listed origin origins ⊎ ((c ≡ false) × Listed (codes "*") origins)
unfolding admits
admits-Listed c origin [] h = absurd (cc h)
admits-Listed c origin (o ∷ origins) h = elim (Bool-cases (beq o origin)) [
  | inl e ↦ inl (inl ((beq_iff o origin).0 e))
  | inr e ↦ elim (Bool-cases (beq o (codes "*") && not c)) [
    | inl w ↦ inr (ground (arith, w), inl ((beq_iff o (codes "*")).0 (ground (arith, w))))
    | inr w ↦ elim (admits-Listed c origin origins (rw (w, e) at h)) [
      | inl k ↦ inl (inr k)
      | inr k ↦ inr (k.0, inr k.1)
    ]
  ]
]

Listed-admits :
    (c : Bool) (origin : Bytes) (origins : List Bytes)
    → Listed origin origins ⊎ ((c ≡ false) × Listed (codes "*") origins)
    → admits c origin origins ≡ true
unfolding admits
Listed-admits c origin [] (inl h) = absurd h
Listed-admits c origin [] (inr h) = absurd h.1
Listed-admits c origin (o ∷ origins) (inl (inl e)) = ground (arith, (beq_iff o origin).1 e)
Listed-admits c origin (o ∷ origins) (inl (inr h)) =
    ground (arith, Listed-admits c origin origins (inl h))
Listed-admits c origin (o ∷ origins) (inr (f, inl e)) =
    ground (arith, f, (beq_iff o (codes "*")).1 e)
Listed-admits c origin (o ∷ origins) (inr (f, inr h)) =
    ground (arith, Listed-admits c origin origins (inr (f, h)))

refused_iff :
    (p : Cors) (origin : Option Bytes) → (refused_origin p origin ≡ true) ↔ MayNotCall p origin
unfolding refused_origin origin_allowed admits
refused_iff p none = (λ h. absurd (cc h), λ h. absurd h)
refused_iff p (some o) = (
  λ h.
      let closed : admits p.allow_credentials o p.allowed_origins ≡ false = ground (arith, h) in
      (
        λ l. absurd (cc (closed, Listed-admits p.allow_credentials o p.allowed_origins (inl l))),
        elim (Bool-cases p.allow_credentials) [
          | inl c ↦ inl c
          | inr c ↦ inr (λ l.
              absurd
                (cc (closed, Listed-admits p.allow_credentials o p.allowed_origins (inr (c, l)))))
        ],
      ),
  λ m. elim (Bool-cases (admits p.allow_credentials o p.allowed_origins)) [
    | inr e ↦ ground (arith, e)
    | inl e ↦ absurd (elim (admits-Listed p.allow_credentials o p.allowed_origins e) [
      | inl l ↦ m.0 l
      | inr (c, l) ↦ elim m.1 [ inl t ↦ cc (c, t) | inr n ↦ n l ]
    ])
  ],
)

preflight_refuses_when :
    (p : Cors) (origin : Option Bytes) (keep_alive : Bool)
    → (preflight p origin keep_alive ≡ forbids ∷ keeps_alive keep_alive ∷ prepares ∷ [])
      ↔ (refused_origin p origin ≡ true)
unfolding preflight
preflight_refuses_when p origin keep_alive = elim (Bool-cases (refused_origin p origin)) [
  | inl e ↦ rw e (λ k. refl, λ k. refl)
  | inr e ↦ rw e (
    λ k. absurd (elim (apply_head p origin []) [
      | inl m ↦ cc (rw m at k)
      | inr (v, es, m) ↦ cc (rw m at k)
    ]),
    λ k. absurd (cc k),
  )
]

-- The answer to a preflight is 403 with no Access-Control field exactly when its request has an
-- origin that is not listed, and the wildcard is not listed either or credentials are allowed; a
-- request without an origin is not refused.
pub preflight_refuses :
    (p : Cors) (origin : Option Bytes) (keep_alive : Bool)
    → (preflight p origin keep_alive ≡ forbids ∷ keeps_alive keep_alive ∷ prepares ∷ [])
      ↔ MayNotCall p origin
preflight_refuses p origin keep_alive =
    let refuses = preflight_refuses_when p origin keep_alive in
    let who = refused_iff p origin in (λ e. who.0 (refuses.0 e), λ m. refuses.1 (who.1 m))
