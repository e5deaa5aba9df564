-- ===== src/Session/Routes/First.antt =====
-- session/http.hpp: the route that takes a request, and the context that its handler gets.
use boost_taar.Common.{
  Bool, ◌&&◌, ◌≡◌, refl, sym, ◌∙◌, ap, inl, inr, Option, none, some, List, [], ◌∷◌, Bool-cases, All,
  beq, codes, if◌then◌else◌,
}
use boost_taar.Session.Routes.{
  Header, Context, Parsed, Route, clear_args, find_route, or_get, choose,
}

-- The first route whose matcher accepts, where every matcher starts from the same context.
unfoldable pub first_match {ℓ} :
    {H : Type ℓ} → List (Route H) → Header → Context → Parsed → Option (H × Context)
first_match [] header c p = none
first_match (r ∷ rs) header c p =
    let (found, c') = r.matcher header c p in
    let rest = first_match rs header c p in if found then some (r.handler, c') else rest

abbrev pub or_else {ℓ} : {A : Type ℓ} → Option A → Option A → Option A
or_else (some a) o = some a
or_else none o = o

-- First by the method of the request; for HEAD, if that is switched on, then by GET.
abbrev pub first_choice {ℓ} :
    {H : Type ℓ} → Bool → List (Route H) → Header → Context → Parsed → Option (H × Context)
first_choice head_from_get routes header c p = or_else (first_match routes header c p) (
    if head_from_get && beq header.method (codes "HEAD")
    then first_match routes (record header { method = codes "GET" }) c p
    else none)

abbrev pub chosen {ℓ} : {H : Type ℓ} → Option H × Context → Option (H × Context)
chosen (none, c) = none
chosen (some h, c) = some (h, c)

-- A matcher may write path arguments, and leaves the attributes alone.
abbrev pub KeepsAttributes {ℓ} : {H : Type ℓ} → Route H → Type 0
KeepsAttributes r =
    (header : Header) (c : Context) (p : Parsed)
    → (r.matcher header c p).1.attributes ≡ c.attributes

cleared : (c c' : Context) → c'.attributes ≡ c.attributes → clear_args c' ≡ clear_args c
cleared c c' e = ap (λ a. record { path_args = []; attributes = a }) e

find_route-first {ℓ} :
    {H : Type ℓ} (routes : List (Route H)) (header : Header) (c : Context) (p : Parsed)
    → All KeepsAttributes routes
    → (chosen (find_route routes header c p) ≡ first_match routes header (clear_args c) p)
      × ((find_route routes header c p).0 ≡ none
          → clear_args (find_route routes header c p).1 ≡ clear_args c)
unfolding find_route first_match
find_route-first [] header c p h = (refl, λ e. refl)
find_route-first (r ∷ rs) header c p h =
    let c' = (r.matcher header (clear_args c) p).1 in
    let back : clear_args c' ≡ clear_args c =
      cleared (clear_args c) c' (h.0 header (clear_args c) p) in
    let later = find_route-first rs header c' p h.1 in
    elim (Bool-cases (r.matcher header (clear_args c) p).0) [
      | inl e ↦ rw e (refl, λ n. back)
      | inr e ↦ rw e (later.0 ∙ ap (λ k. first_match rs header k p) back, λ n. later.1 n ∙ back)
    ]

or_get-first {ℓ} :
    {H : Type ℓ} (head_from_get : Bool) (routes : List (Route H)) (header : Header) (c : Context)
    (p : Parsed) (r : Option H × Context)
    → All KeepsAttributes routes
    → chosen r ≡ first_match routes header (clear_args c) p
    → (r.0 ≡ none → clear_args r.1 ≡ clear_args c)
    → chosen (or_get head_from_get routes header p r)
      ≡ first_choice head_from_get routes header (clear_args c) p
or_get-first head_from_get routes header c p (some h, c') keeps e back = rw⁻¹ e refl
or_get-first head_from_get routes header c p (none, c') keeps e back =
    let get = record header { method = codes "GET" } in
    let again = find_route-first routes get c' p keeps in
    elim (Bool-cases (head_from_get && beq header.method (codes "HEAD"))) [
      | inl t ↦ rw (t, sym e) (again.0 ∙ ap (λ k. first_match routes get k p) (back refl))
      | inr t ↦ rw (t, sym e) refl
    ]

-- If no matcher changes the attributes of a request, then the route that takes it is the first that
-- accepts it by its method, or else, for HEAD where GET routes serve it, the first that accepts it
-- as GET. Its handler gets the path arguments that this matcher wrote on an empty list, so
-- nothing of the routes that were tried before, and the attributes of the interceptors.
pub choose-first_choice {ℓ} :
    {H : Type ℓ} (head_from_get : Bool) (routes : List (Route H)) (header : Header) (c : Context)
    (p : Parsed)
    → All KeepsAttributes routes
    → chosen (choose head_from_get routes header c p)
      ≡ first_choice head_from_get routes header (clear_args c) p
unfolding choose
choose-first_choice head_from_get routes header c p keeps =
    let found = find_route-first routes header c p keeps in
    or_get-first head_from_get routes header c p (find_route routes header c p) keeps found.0
      found.1
