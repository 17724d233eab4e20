-- ===== src/Api/Routes/Laws.antt =====
-- The paths that the router hands to a handler.
use cave.Base.{
  ℕ, zero, suc, ◌≤◌, ◌≡◌, subst, Bool, true, false, ◌&&◌, List, [], ◌∷◌, Bytes, arith, eqb, eqb_iff,
  length, take, drop, if◌then◌else◌, ret,
}
use cave.Path.{trim_path}
use cave.Api.Routes.{RouteOf, starts_with, matches}

length-take_le : {A : Type 0} (n : ℕ) (xs : List A) → length (take n xs) ≤ length xs
length-take_le zero xs = omega arith
length-take_le (suc n) [] = omega arith
length-take_le (suc n) (x ∷ xs) = omega (arith, length-take_le n xs)

starts_with-le :
    (prefix path : Bytes) → starts_with prefix path ≡ true → length prefix ≤ length path
starts_with-le prefix path h =
    let e : take (length prefix) path ≡ prefix = (eqb_iff (take (length prefix) path) prefix).0 h in
    subst (λ x. length x ≤ length path) e (length-take_le (length prefix) path)

eqb-le : (prefix path : Bytes) → eqb prefix path ≡ true → length prefix ≤ length path
eqb-le prefix path h =
    let e : prefix ≡ path = (eqb_iff prefix path).0 h in
    subst (λ x. length prefix ≤ length x) e (omega arith)

and-right : (a b : Bool) → (a && b) ≡ true → b ≡ true
and-right true b h = h
and-right false b h = cc

either-le :
    (b : Bool) (prefix path : Bytes)
    → (if b then starts_with prefix path else eqb prefix path) ≡ true
    → length prefix ≤ length path
either-le true prefix path h = starts_with-le prefix path h
either-le false prefix path h = eqb-le prefix path h

-- trimPath never panics on the path of a request that a route matches, with the path of the route.
pub trim_path-matches :
    (r : RouteOf) (method path : Bytes)
    → matches r method path ≡ true
    → trim_path path r.path ≡ ret (drop (length r.path) path)
unfolding trim_path matches
trim_path-matches r method path h =
    let e = and-right _ _ h in
    let le : length r.path ≤ length path = either-le r.open_end r.path path e in ground arith
