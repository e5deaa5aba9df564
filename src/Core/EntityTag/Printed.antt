-- ===== src/Core/EntityTag/Printed.antt =====
-- core/entity_tag.hpp: a printed list of tags is read back, and matches as its tags do.
use boost_taar.Common.{
  ℕ, zero, suc, ◌<◌, ◌≡◌, ◌≢◌, refl, ◌∙◌, ap, sym, Bool, true, false, ◌||◌, some, List, [], ◌∷◌,
  ◌++◌, arith, length, length-append, All, any, Bytes, codes, trim_start, trim, is_ws, EndsInk,
  EndsInk-append, trim-ink, trim_space, if◌then◌else◌, append-nil, beq,
}
use boost_taar.Core.EntityTag.Listed.{list_from-nil, list_from-comma, list_from-tag}
use boost_taar.Core.EntityTag.{
  EntityTag, is_etagc, scan_opaque, parse_opaque, parse_entity_tag, matches, list_from,
  etag_list_matches, no_comma,
}

-- A tag as it stands in a header.
abbrev pub tag_text : EntityTag → Bytes
tag_text t =
    if t.weak
    then b'W' ∷ b'/' ∷ b'"' ∷ (t.opaque_tag ++ b'"' ∷ [])
    else b'"' ∷ (t.opaque_tag ++ b'"' ∷ [])

abbrev pub IsTag : EntityTag → Type 0
IsTag t = All (λ c. is_etagc c ≡ true) t.opaque_tag

scan_opaque-append :
    (tag rest : Bytes)
    → All (λ c. is_etagc c ≡ true) tag
    → scan_opaque ((tag ++ b'"' ∷ []) ++ rest) ≡ some (tag, rest)
unfolding scan_opaque
scan_opaque-append [] rest h = refl
scan_opaque-append (c ∷ tag) rest (h, hs) = rw (scan_opaque-append tag rest hs) (ground arith)

-- A printed tag is read back, with what follows it.
pub parse_entity_tag-tag_text :
    (t : EntityTag) (rest : Bytes)
    → IsTag t
    → parse_entity_tag (tag_text t ++ rest) ≡ some (t, rest)
unfolding parse_entity_tag parse_opaque trim_start
parse_entity_tag-tag_text t rest h = ground (arith, scan_opaque-append t.opaque_tag rest h)

-- Tags as a list: `"a", W/"b"`.
abbrev pub list_tail : List EntityTag → Bytes
list_tail [] = []
list_tail (t ∷ ts) = b',' ∷ b' ' ∷ (tag_text t ++ list_tail ts)

abbrev pub list_text : List EntityTag → Bytes
list_text [] = []
list_text (t ∷ ts) = tag_text t ++ list_tail ts

-- The first character of a printed tag.
tag_text-cons :
    (t : EntityTag) (rest : Bytes)
    → (c : ℕ) × (s : Bytes) × (tag_text t ++ rest ≡ c ∷ s) × (c ≢ b',') × (is_ws c ≡ false)
tag_text-cons t rest = from t.weak refl
  where
    from :
        (w : Bool)
        → t.weak ≡ w
        → (c : ℕ) × (s : Bytes) × (tag_text t ++ rest ≡ c ∷ s) × (c ≢ b',') × (is_ws c ≡ false)
    from true e =
        (b'W', (b'/' ∷ b'"' ∷ (t.opaque_tag ++ b'"' ∷ [])) ++ rest, rw e, omega arith, refl)
    from false e = (b'"', (t.opaque_tag ++ b'"' ∷ []) ++ rest, rw e, omega arith, refl)

tag_text-EndsInk : (t : EntityTag) → EndsInk (tag_text t)
tag_text-EndsInk t = from t.weak refl
  where
    from : (w : Bool) → t.weak ≡ w → EndsInk (tag_text t)
    from true e = rw e (EndsInk-append (b'W' ∷ b'/' ∷ b'"' ∷ t.opaque_tag) b'"' [] refl)
    from false e = rw e (EndsInk-append (b'"' ∷ t.opaque_tag) b'"' [] refl)

EndsInk-cons : (c : ℕ) (s : Bytes) → s ≢ [] → EndsInk s → EndsInk (c ∷ s)
EndsInk-cons c [] ne h = absurd (ne refl)
EndsInk-cons c (d ∷ s) ne h = h

-- A printed tag and what stands behind it in a list end with no white space.
tag_list-EndsInk : (t : EntityTag) (ts : List EntityTag) → EndsInk (tag_text t ++ list_tail ts)
tag_list-EndsInk t [] = rw append-nil (tag_text-EndsInk t)
tag_list-EndsInk t (u ∷ ts) =
    let (c, s, e, _, _) = tag_text-cons u (list_tail ts) in
    EndsInk-append (tag_text t) b',' (b' ' ∷ (tag_text u ++ list_tail ts))
      (EndsInk-cons b' ' (tag_text u ++ list_tail ts) (λ z. cc e) (tag_list-EndsInk u ts))

trim-tag_list :
    (t : EntityTag) (ts : List EntityTag)
    → trim (tag_text t ++ list_tail ts) ≡ tag_text t ++ list_tail ts
trim-tag_list t ts =
    let (c, s, e, _, ink) = tag_text-cons t (list_tail ts) in
    trim-ink _ (rw e ink) (tag_list-EndsInk t ts)

trim-list_tail : (ts : List EntityTag) → trim (list_tail ts) ≡ list_tail ts
trim-list_tail [] = trim-ink [] tt tt
trim-list_tail (t ∷ ts) =
    let (c, s, e, _, _) = tag_text-cons t (list_tail ts) in
    trim-ink _ refl
      (EndsInk-cons b' ' (tag_text t ++ list_tail ts) (λ z. cc e) (tag_list-EndsInk t ts))

no_comma-list_tail : (ts : List EntityTag) → no_comma (list_tail ts) ≡ false
no_comma-list_tail [] = refl
no_comma-list_tail (t ∷ ts) = refl

any_matches : Bool → EntityTag → List EntityTag → Bool → Bool
any_matches weak cur [] m = m
any_matches weak cur (t ∷ ts) m = any_matches weak cur ts (m || matches weak t cur)

any_matches_lem :
    (weak : Bool) (cur : EntityTag) (ts : List EntityTag) (m : Bool)
    → any_matches weak cur ts m ≡ (m || any (λ t. matches weak t cur) ts)
unfolding any_matches
any_matches_lem weak cur [] m = ground arith
any_matches_lem weak cur (t ∷ ts) m =
    ground (arith, any_matches_lem weak cur ts (m || matches weak t cur))

module _ (cur : EntityTag) (weak : Bool) where
  -- The first tag is taken, and the loop goes on with what follows it.
  take_tag :
      (ts : List EntityTag) (t : EntityTag) (n : ℕ) (field : Bytes) (m : Bool)
      → trim field ≡ tag_text t ++ list_tail ts
      → IsTag t
      → list_from cur weak (suc n) field m
        ≡ list_from cur weak n (list_tail ts) (m || matches weak t cur)
  take_tag ts t n field m e h =
      let (c, s, front, ne, _) = tag_text-cons t (list_tail ts) in
      list_from-tag cur weak n field m c s (e ∙ front) ne (t, list_tail ts)
        (ap parse_entity_tag (sym front) ∙ parse_entity_tag-tag_text t (list_tail ts) h)
      ∙ rw (trim-list_tail ts, no_comma-list_tail ts)

  list_from-tag_list :
      (ts : List EntityTag) (t : EntityTag) (n : ℕ) (field : Bytes) (m : Bool)
      → trim field ≡ tag_text t ++ list_tail ts
      → length (tag_text t ++ list_tail ts) < suc n
      → IsTag t
      → All IsTag ts
      → list_from cur weak (suc n) field m ≡ some (any_matches weak cur (t ∷ ts) m)
  unfolding any_matches
  list_from-tag_list ts t zero field m e h ht hts =
      let (c, s, front, _, _) = tag_text-cons t (list_tail ts) in
      absurd (omega (arith, ap length front))
  list_from-tag_list [] t (suc k) field m e h ht hts =
      take_tag [] t (suc k) field m e ht ∙ list_from-nil cur weak k [] _ (trim-ink [] tt tt)
  list_from-tag_list (u ∷ ts) t (suc zero) field m e h ht (hu, hts) =
      absurd (omega (arith, length-append (tag_text t) (list_tail (u ∷ ts))))
  list_from-tag_list (u ∷ ts) t (suc (suc k)) field m e h ht (hu, hts) =
      take_tag (u ∷ ts) t (suc (suc k)) field m e ht
      ∙ list_from-comma cur weak (suc k) (list_tail (u ∷ ts)) _ b',' _ (trim-list_tail (u ∷ ts))
          refl
      ∙ list_from-tag_list ts u k (b' ' ∷ (tag_text u ++ list_tail ts)) _
          (trim_space b' ' (tag_text u ++ list_tail ts) refl ∙ trim-tag_list u ts)
          (omega (arith, length-append (tag_text t) (list_tail (u ∷ ts)))) hu hts

-- No printed list is `*`.
list_text-ne-star : (ts : List EntityTag) → beq (list_text ts) (codes "*") ≡ false
list_text-ne-star [] = refl
list_text-ne-star (t ∷ ts) = from t.weak refl
  where
    from : (w : Bool) → t.weak ≡ w → beq (tag_text t ++ list_tail ts) (codes "*") ≡ false
    from true e = rw e
    from false e = rw e

trim-list_text : (ts : List EntityTag) → trim (list_text ts) ≡ list_text ts
trim-list_text [] = trim-ink [] tt tt
trim-list_text (t ∷ ts) = trim-tag_list t ts

list_from-list_text :
    (ts : List EntityTag) (cur : EntityTag) (weak : Bool)
    → All IsTag ts
    → list_from cur weak (suc (length (list_text ts))) (list_text ts) false
      ≡ some (any_matches weak cur ts false)
unfolding any_matches
list_from-list_text [] cur weak h = list_from-nil cur weak 0 [] false (trim-ink [] tt tt)
list_from-list_text (t ∷ ts) cur weak (h, hs) =
    list_from-tag_list cur weak ts t _ _ false (trim-tag_list t ts) (omega arith) h hs

-- A field that lists tags matches exactly when one of them does, by the weak or the strong
-- comparison; the current tag is read from its own text.
pub etag_list_matches-list_text :
    (ts : List EntityTag) (cur : EntityTag) (weak : Bool)
    → All IsTag ts
    → IsTag cur
    → etag_list_matches (list_text ts) (tag_text cur) weak ≡ any (λ t. matches weak t cur) ts
unfolding etag_list_matches
etag_list_matches-list_text ts cur weak hts hc =
    rw (parse_entity_tag_alone, etag_list_matches)
      (rw (trim-list_text ts, list_text-ne-star ts, list_from-list_text ts cur weak hts)
        (any_matches_lem weak cur ts false))
  where
    parse_entity_tag_alone : parse_entity_tag (tag_text cur) ≡ some (cur, [])
    parse_entity_tag_alone =
        ap parse_entity_tag (sym (append-nil (tag_text cur))) ∙ parse_entity_tag-tag_text cur [] hc
