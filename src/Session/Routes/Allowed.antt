-- ===== src/Session/Routes/Allowed.antt =====
-- session/http.hpp: the methods that the Allow field of a 405 lists.
use boost_taar.Common.{
  Bool, true, false, not, ◌&&◌, ◌||◌, ◌≡◌, refl, ◌∙◌, ap, inl, inr, List, [], ◌∷◌, ◌++◌, Bool-cases,
  All, Bytes, beq, beq_iff, codes, if◌then◌else◌, arith,
}
use boost_taar.Session.Routes.{
  Header, Context, Parsed, RouteMethods, no_context, clear_args, listed, add_methods,
  collect_methods, with_head, allowed_list,
}

-- Some route knows the path, and has the method.
unfoldable pub knows : List RouteMethods → Header → Parsed → Bytes → Bool
knows [] header p m = false
knows (r ∷ rs) header p m =
    ((r.target_matches header no_context p).0 && listed m r.methods) || knows rs header p m

-- HEAD comes with GET, if that is switched on.
abbrev pub permits : Bool → List RouteMethods → Header → Parsed → Bytes → Bool
permits head_from_get routes header p m =
    knows routes header p m
    || (head_from_get && beq m (codes "HEAD") && knows routes header p (codes "GET"))

abbrev pub KeepsAttributes : RouteMethods → Type 0
KeepsAttributes r =
    (header : Header) (c : Context) (p : Parsed)
    → (r.target_matches header c p).1.attributes ≡ c.attributes

listed-append :
    (m : Bytes) (xs ys : List Bytes) → listed m (xs ++ ys) ≡ (listed m xs || listed m ys)
listed-append m [] ys = refl
listed-append m (x ∷ xs) ys = ground (arith, listed-append m xs ys)

listed_same : (m n : Bytes) (xs : List Bytes) → beq m n ≡ true → listed m xs ≡ listed n xs
listed_same m n xs e = ap (λ k. listed k xs) ((beq_iff m n).0 e)

listed-add_methods :
    (m : Bytes) (xs ys : List Bytes) → listed m (add_methods xs ys) ≡ (listed m xs || listed m ys)
unfolding add_methods
listed-add_methods m xs [] = ground (arith)
listed-add_methods m xs (y ∷ ys) = elim (Bool-cases (listed y xs)) [
  | inl e ↦ rw e (listed-add_methods m xs ys ∙ ground (arith, e, listed_same m y xs))
  | inr e ↦
      rw e (listed-add_methods m (xs ++ y ∷ []) ys ∙ ground (arith, listed-append m xs (y ∷ [])))
]

listed-collect_methods :
    (m : Bytes) (routes : List RouteMethods) (header : Header) (scratch : Context) (p : Parsed)
    (methods : List Bytes)
    → All KeepsAttributes routes
    → scratch.attributes ≡ []
    → listed m (collect_methods routes header scratch p methods)
      ≡ (listed m methods || knows routes header p m)
unfolding collect_methods knows
listed-collect_methods m [] header scratch p methods h e = ground arith
listed-collect_methods m (r ∷ rs) header scratch p methods h e =
    let start : clear_args scratch ≡ no_context =
      ap (λ a. record { path_args = []; attributes = a }) e in
    let known = (r.target_matches header no_context p).0 in
    ap
      (λ c. listed m (
        collect_methods rs header (r.target_matches header c p).1 p
          (if (r.target_matches header c p).0 then add_methods methods r.methods else methods)))
      start
    ∙ listed-collect_methods m rs header (r.target_matches header no_context p).1 p
        (if known then add_methods methods r.methods else methods) h.1 (h.0 header no_context p)
    ∙ elim (Bool-cases known) [
      | inl k ↦ rw k (ground (arith, listed-add_methods m methods r.methods))
      | inr k ↦ rw k refl
    ]

listed-with_head :
    (m : Bytes) (head_from_get : Bool) (methods : List Bytes)
    → listed m (with_head head_from_get methods) ≡ (
        listed m methods || (head_from_get && beq m (codes "HEAD") && listed (codes "GET") methods))
listed-with_head m head_from_get methods =
    elim (Bool-cases
      (head_from_get && listed (codes "GET") methods && not (listed (codes "HEAD") methods))) [
        | inl e ↦ rw e (listed-append m methods (codes "HEAD" ∷ []) ∙ ground (arith, e))
        | inr e ↦ rw e (ground (arith, e, listed_same m (codes "HEAD") methods))
      ]

permits_lem :
    (head_from_get : Bool) (routes : List RouteMethods) (header : Header) (p : Parsed)
    → All KeepsAttributes routes
    → (m : Bytes)
    → listed m (with_head head_from_get (collect_methods routes header no_context p []))
      ≡ permits head_from_get routes header p m
permits_lem head_from_get routes header p keeps m =
    rw
      (
        listed-with_head m head_from_get (collect_methods routes header no_context p []),
        listed-collect_methods m routes header no_context p [] keeps refl,
        listed-collect_methods (codes "GET") routes header no_context p [] keeps refl,
      )
      refl

-- If no matcher of a path changes the attributes: a method is listed in Allow exactly when a route
-- that knows the path has it, or it is HEAD, GET routes serve HEAD and one that knows the
-- path has GET; and none is listed when the method of the request is itself such a one.
pub allowed_list_lem :
    (head_from_get : Bool) (routes : List RouteMethods) (header : Header) (p : Parsed) (m : Bytes)
    → All KeepsAttributes routes
    → listed m (allowed_list head_from_get routes header p) ≡ (
        permits head_from_get routes header p m
        && not (permits head_from_get routes header p header.method))
unfolding allowed_list
allowed_list_lem head_from_get routes header p m keeps =
    let methods = with_head head_from_get (collect_methods routes header no_context p []) in
    let permitted = permits_lem head_from_get routes header p keeps in
    elim (Bool-cases (listed header.method methods)) [
      | inl e ↦ rw e (ground (arith, e, permitted header.method))
      | inr e ↦ rw e (ground (arith, e, permitted header.method, permitted m))
    ]
