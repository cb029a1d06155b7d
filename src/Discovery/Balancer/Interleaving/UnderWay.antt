-- ===== src/Discovery/Balancer/Interleaving/UnderWay.antt =====
-- The list of the requests under way.
use siger_api_gateway.Common.{
  ◌+◌, ◌≡◌, refl, inl, inr, true, false, ◌==◌, String, List, [], ◌∷◌, ◌++◌, if◌then◌else◌, All,
  contains, arith, eq-cases,
}
use siger_api_gateway.Discovery.Balancer.Interleaving.{Ongoing, instance_of, under_way}

under_way-append :
    (id : String) (xs ys : List Ongoing)
    → under_way id (xs ++ ys) ≡ under_way id xs + under_way id ys
unfolding under_way
under_way-append id [] ys = omega arith
under_way-append id (x ∷ xs) ys = omega (arith, under_way-append id xs ys)

-- A request in the middle counts as one in front.
pub under_way-middle :
    (id : String) (before after : List Ongoing) (r : Ongoing)
    → under_way id (before ++ r ∷ after)
      ≡ (if instance_of r == id then 1 else 0) + under_way id (before ++ after)
unfolding under_way
under_way-middle id before after r =
    omega (arith, under_way-append id before (r ∷ after), under_way-append id before after)

-- An instance that is no longer there has no requests, if all that have some are.
pub kept-under_way :
    (j : String) (ids : List String) (rs : List Ongoing)
    → All (λ r. contains (instance_of r) ids ≡ true) rs
    → contains j ids ≡ false
    → under_way j rs ≡ 0
unfolding under_way
kept-under_way j ids [] kept h = refl
kept-under_way j ids (r ∷ rs) kept h = elim (eq-cases (instance_of r) j) [
  | inl (same, _) ↦ let clash : contains j ids ≡ true = rw same at kept.0 in cc
  | inr (_, t) ↦ rw t (omega (arith, kept-under_way j ids rs kept.1 h))
]

-- What holds of all holds of one in the middle, and of the others.
pub All-middle :
    (P : Ongoing → Type 0) (before after : List Ongoing) (r : Ongoing)
    → All P (before ++ r ∷ after)
    → P r × All P (before ++ after)
All-middle P [] after r h = h
All-middle P (x ∷ before) after r h =
    let (here, rest) = All-middle P before after r h.1 in (here, (h.0, rest))

pub All-replace :
    (P : Ongoing → Type 0) (before after : List Ongoing) (r s : Ongoing)
    → P s
    → All P (before ++ r ∷ after)
    → All P (before ++ s ∷ after)
All-replace P [] after r s p h = (p, h.1)
All-replace P (x ∷ before) after r s p h = (h.0, All-replace P before after r s p h.1)
