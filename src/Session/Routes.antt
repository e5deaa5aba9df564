-- ===== src/Session/Routes.antt =====
-- session/http.hpp: the routes of a session, the choice among them, and `allowed_methods`. What a
-- matcher reads and writes is data; the matchers are arguments, since a session holds any.
pub mod Allowed
pub mod First
use boost_taar.Common.{
  ℕ, Bool, true, false, not, ◌&&◌, Option, none, some, List, [], ◌∷◌, ◌++◌, any, if◌then◌else◌,
  Bytes, beq, codes,
}
use boost_taar.Core.Cors.{join}

-- A request header. `keep_alive` is what message::keep_alive() makes of its version and its
-- Connection field.
pub record Header : Type 0 where
  pub method : Bytes
  pub target : Bytes
  pub version : ℕ
  pub keep_alive : Bool
  pub fields : List (Bytes × Bytes)

-- The path arguments, and the attributes that interceptors attach.
pub record Context : Type 0 where
  pub path_args : List (Bytes × Bytes)
  pub attributes : List (Bytes × Bytes)

pub record Parsed : Type 0 where
  pub target : Bytes
  pub cookies : List (Bytes × Bytes)

abbrev pub Matcher : Type 0
Matcher = Header → Context → Parsed → Bool × Context

pub record Route {ℓ} (H : Type ℓ) : Type ℓ where
  pub matcher : Matcher
  pub handler : H

pub record RouteMethods : Type 0 where
  pub target_matches : Matcher
  pub methods : List Bytes

abbrev pub no_context : Context
no_context = record { path_args = []; attributes = [] }

abbrev pub clear_args : Context → Context
clear_args c = record c { path_args = [] }

-- `std::ranges::find_if` over the routes: the handler and what the matchers left in the context.
unfoldable pub find_route {ℓ} :
    {H : Type ℓ} → List (Route H) → Header → Context → Parsed → Option H × Context
find_route [] header c p = (none, c)
find_route (r ∷ rs) header c p =
    let (found, c') = r.matcher header (clear_args c) p in
    let rest = find_route rs header c' p in if found then (some r.handler, c') else rest

-- A HEAD request that no route takes is matched again as GET.
abbrev pub or_get {ℓ} :
    {H : Type ℓ} → Bool → List (Route H) → Header → Parsed → Option H × Context → Option H × Context
or_get head_from_get routes header p (some h, c) = (some h, c)
or_get head_from_get routes header p (none, c) =
    if head_from_get && beq header.method (codes "HEAD")
    then find_route routes (record header { method = codes "GET" }) c p
    else (none, c)

unfoldable pub choose {ℓ} :
    {H : Type ℓ} → Bool → List (Route H) → Header → Context → Parsed → Option H × Context
choose head_from_get routes header c p =
    or_get head_from_get routes header p (find_route routes header c p)

abbrev pub listed : Bytes → List Bytes → Bool
listed m methods = any (beq m) methods

unfoldable pub add_methods : List Bytes → List Bytes → List Bytes
add_methods methods [] = methods
add_methods methods (m ∷ ms) =
    add_methods (if listed m methods then methods else methods ++ m ∷ []) ms

unfoldable pub collect_methods :
    List RouteMethods → Header → Context → Parsed → List Bytes → List Bytes
collect_methods [] header scratch p methods = methods
collect_methods (r ∷ rs) header scratch p methods =
    let (matches, scratch') = r.target_matches header (clear_args scratch) p in
    collect_methods rs header scratch' p
      (if matches then add_methods methods r.methods else methods)

abbrev pub with_head : Bool → List Bytes → List Bytes
with_head head_from_get methods =
    if head_from_get && listed (codes "GET") methods && not (listed (codes "HEAD") methods)
    then methods ++ codes "HEAD" ∷ []
    else methods

unfoldable pub allowed_list : Bool → List RouteMethods → Header → Parsed → List Bytes
unfolding collect_methods
allowed_list head_from_get routes header p =
    let methods = with_head head_from_get (collect_methods routes header no_context p []) in
    if listed header.method methods then [] else methods

unfoldable pub allowed_methods : Bool → List RouteMethods → Header → Parsed → Bytes
unfolding allowed_list
allowed_methods head_from_get routes header p = join (allowed_list head_from_get routes header p)
