-- ===== src/Common/Server/Routes.antt =====
-- `replace_route` of common/server.py, and how a request finds its handler.
use kv_replication_lab.Prelude.{
  ◌≡◌, refl, ap, ◌∙◌, String, Bool, true, false, not, ◌&&◌, Option, none, some, List, [], ◌∷◌, ◌++◌,
  All, keep, arith, if◌then◌else◌,
}
use kv_replication_lab.Common.Server.{
  Method, Endpoint, Route, method_eq, has_method, overlap, path_is, is_replaced, replace_route,
}

-- Starlette's router, which is not part of this repository: a request goes to the first route, in
-- the order of registration, whose methods have the request's and whose path pattern fits.
pub record Router : Type 0 where
  pub path_fits : Option String → String → Bool
  pub resolve : List Route → Method → String → Option Endpoint
  pub resolve-nil : (m : Method) (p : String) → resolve [] m p ≡ none
  pub resolve-cons :
      (r : Route) (rs : List Route) (m : Method) (p : String)
      → resolve (r ∷ rs) m p
        ≡ (if has_method m r.methods && path_fits r.path p then some r.endpoint else resolve rs m p)

-- The first answer of two.
abbrev pub or_else {ℓ} : {A : Type ℓ} → Option A → Option A → Option A
or_else none b = b
or_else (some a) b = some a

method_eq-path : (m n : Method) → method_eq m n ≡ true → m ≡ n
method_eq-path m n h = ground arith

overlap_of :
    (m : Method) (ms ns : List Method)
    → has_method m ms ≡ true
    → has_method m ns ≡ true
    → overlap ms ns ≡ true
overlap_of m [] ns p q = p
overlap_of m (k ∷ ms) ns p q = ground (arith, method_eq-path m k, overlap_of m ms ns)

pub or_else-none {ℓ} : {A : Type ℓ} (o : Option A) → or_else o none ≡ o
or_else-none none = refl
or_else-none (some a) = refl

pub All-append : (P : Route → Type 0) (xs ys : List Route) → All P xs → All P ys → All P (xs ++ ys)
All-append P [] later none_first all_later = all_later
All-append P (route ∷ first) later (here, rest) all_later =
    (here, All-append P first later rest all_later)

pub All-imp :
    (P Q : Route → Type 0) (xs : List Route) → ((r : Route) → P r → Q r) → All P xs → All Q xs
All-imp P Q [] f h = tt
All-imp P Q (x ∷ xs) f h = (f x h.0, All-imp P Q xs f h.1)

-- None of the methods overlaps a single one that the list lacks.
pub overlap_one :
    (m : Method) (ms : List Method) → has_method m ms ≡ false → overlap ms (m ∷ []) ≡ false
overlap_one m [] h = refl
overlap_one m (k ∷ ms) h = ground (arith, method_eq-path k m, method_eq-path m k, overlap_one m ms)

module _ (router : Router) where
  open router use {path_fits, resolve, resolve-nil, resolve-cons}

  -- The route's methods have the request's, and its pattern fits.
  abbrev pub serves : Method → String → Route → Bool
  serves m q r = has_method m r.methods && path_fits r.path q

  pub resolve-append :
      (rs qs : List Route) (m : Method) (q : String)
      → resolve (rs ++ qs) m q ≡ or_else (resolve rs m q) (resolve qs m q)
  resolve-append [] qs m q = rw (resolve-nil m q)
  resolve-append (r ∷ rs) qs m q =
      ground (arith, resolve-cons r (rs ++ qs) m q, resolve-cons r rs m q, resolve-append rs qs m q)

  pub resolve-one :
      (r : Route) (m : Method) (q : String)
      → resolve (r ∷ []) m q ≡ (if serves m q r then some r.endpoint else none)
  resolve-one r m q = resolve-cons r [] m q ∙ rw (resolve-nil m q)

  -- Routes that do not serve a request may be dropped.
  pub resolve-keep :
      (p : Route → Bool) (rs : List Route) (m : Method) (q : String)
      → All (λ r. (not (p r) && serves m q r) ≡ false) rs
      → resolve (keep p rs) m q ≡ resolve rs m q
  resolve-keep p [] m q h = refl
  resolve-keep p (r ∷ rs) m q h =
      ground
        (arith, resolve-cons r (keep p rs) m q, resolve-cons r rs m q, resolve-keep p rs m q h.1)

  -- Where no route serves a request, none is found.
  pub resolve_none :
      (rs : List Route) (m : Method) (q : String)
      → All (λ r. serves m q r ≡ false) rs
      → resolve rs m q ≡ none
  resolve_none [] m q h = resolve-nil m q
  resolve_none (r ∷ rs) m q h = ground (arith, resolve-cons r rs m q, resolve_none rs m q h.1)

  replace_route-none :
      (rs : List Route) (path : String) (wanted : List Method) (m : Method) (q : String)
      → has_method m wanted ≡ true
      → All (λ r. (serves m q r && not (path_is r.path path)) ≡ false) rs
      → resolve (replace_route rs path wanted) m q ≡ none
  unfolding replace_route
  replace_route-none [] path wanted m q h others = resolve-nil m q
  replace_route-none (r ∷ rs) path wanted m q h others = ground (
    arith,
    resolve-cons r (replace_route rs path wanted) m q,
    overlap_of m r.methods wanted,
    replace_route-none rs path wanted m q h others.1,
  )

  module _ (rs : List Route) (path : String) (wanted : List Method) (new : List Route) where
    -- Once the routes of a path and some methods are replaced, a request with one of these methods
    -- is decided by the routes registered afterwards, when no route of another path serves it.
    pub replace_route_shadows :
        (m : Method) (q : String)
        → has_method m wanted ≡ true
        → All (λ r. (serves m q r && not (path_is r.path path)) ≡ false) rs
        → resolve (replace_route rs path wanted ++ new) m q ≡ resolve new m q
    replace_route_shadows m q h others = rw (
      resolve-append (replace_route rs path wanted) new m q,
      replace_route-none rs path wanted m q h others,
    )

    -- A request that no dropped route serves finds the handler that it found before, and the
    -- routes registered afterwards are asked only if it found none.
    pub replace_route_keeps :
        (m : Method) (q : String)
        → All (λ r. (is_replaced path wanted r && serves m q r) ≡ false) rs
        → resolve (replace_route rs path wanted ++ new) m q
          ≡ or_else (resolve rs m q) (resolve new m q)
    unfolding replace_route
    replace_route_keeps m q dropped = rw (resolve-append (replace_route rs path wanted) new m q) (
        ap (λ o. or_else o (resolve new m q))
          (resolve-keep (λ r. not (is_replaced path wanted r)) rs m q (undrop rs dropped)))
      where
        undrop :
            (ts : List Route)
            → All (λ r. (is_replaced path wanted r && serves m q r) ≡ false) ts
            → All (λ r. (not (not (is_replaced path wanted r)) && serves m q r) ≡ false) ts
        undrop [] d = tt
        undrop (t ∷ ts) d = (ground arith, undrop ts d.1)

    -- Without the replacement the routes registered first go on answering.
    pub register_only :
        (m : Method) (q : String) (e : Endpoint)
        → resolve rs m q ≡ some e
        → resolve (rs ++ new) m q ≡ some e
    register_only m q e h = rw (resolve-append rs new m q, h)
