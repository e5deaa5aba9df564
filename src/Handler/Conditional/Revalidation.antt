-- ===== src/Handler/Conditional/Revalidation.antt =====
-- handler/htdocs.hpp: the entity tag that a response carries, sent back as a condition.
use boost_taar.Common.{
  ℕ, ◌≡◌, refl, ◌∙◌, ap, sym, Bool, true, false, ◌||◌, Option, none, some, [], ◌∷◌, arith,
  if◌then◌else◌, Bytes, beq, beq_iff, append-nil,
}
use boost_taar.Core.EntityTag.{EntityTag, matches, etag_list_matches}
use boost_taar.Core.EntityTag.Printed.{tag_text, list_text, IsTag, etag_list_matches-list_text}
use boost_taar.Handler.Conditional.{
  proceed, failed, not_modified, fails, unchanged, evaluate_preconditions,
}

beq_refl : (a : Bytes) → beq a a ≡ true
beq_refl a = (beq_iff a a).1 refl

or_false : (b : Bool) → (b || false) ≡ b
or_false b = ground arith

own_tag :
    (t : EntityTag) (weak : Bool)
    → IsTag t
    → etag_list_matches (tag_text t) (tag_text t) weak ≡ matches weak t t
own_tag t weak h =
    ap (λ f. etag_list_matches f (tag_text t) weak) (sym_nil t)
    ∙ etag_list_matches-list_text (t ∷ []) t weak (h, tt) h
    ∙ or_false (matches weak t t)
  where
    sym_nil : (t : EntityTag) → tag_text t ≡ list_text (t ∷ [])
    sym_nil t = sym (append-nil (tag_text t))

-- If the entity tag of a response, which is well formed, comes back in If-None-Match and no other
-- condition is sent, the answer is 304; if it comes back in If-Match, the request proceeds where the
-- tag is strong and fails where it is weak.
pub evaluate_preconditions-tag_text :
    (parse_date : Bytes → Option ℕ) (t : EntityTag) (since : Option Bytes) (last_modified : ℕ)
    → IsTag t
    → (evaluate_preconditions parse_date
          (record {
            if_match = none;
            if_unmodified_since = none;
            if_none_match = some (tag_text t);
            if_modified_since = since;
          })
          (tag_text t)
          last_modified
        ≡ not_modified)
      × (evaluate_preconditions parse_date
            (record {
              if_match = some (tag_text t);
              if_unmodified_since = since;
              if_none_match = none;
              if_modified_since = none;
            })
            (tag_text t)
            last_modified
          ≡ (if t.weak then failed else proceed))
unfolding evaluate_preconditions fails unchanged
evaluate_preconditions-tag_text parse_date t since last_modified h = (
  rw (own_tag t true h, beq_refl t.opaque_tag) refl,
  rw (own_tag t false h, beq_refl t.opaque_tag) (ground arith),
)
