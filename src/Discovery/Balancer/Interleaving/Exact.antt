-- ===== src/Discovery/Balancer/Interleaving/Exact.antt =====
-- The connection counters, however requests overlap.
use siger_api_gateway.Common.{
  ℕ, zero, suc, ◌+◌, ◌-◌, ◌<◌, ◌≡◌, refl, ap, ◌∙◌, ◌⊎◌, inl, inr, true, ◌==◌, String, Option, none,
  some, List, [], ◌∷◌, ◌++◌, lookup, ltb, if◌then◌else◌, All, contains, arith, eq-cases, Bool-cases,
  eq_refl, sym,
}
use siger_api_gateway.Discovery.Instance.{ServiceInstance}
use siger_api_gateway.Discovery.Balancer.{
  LoadBalancer, LoadBalancerType, uint64_mod, new_load_balancer, update_instances, instance_begin,
  or_zero, increment,
}
use siger_api_gateway.Discovery.Balancer.Members.{get_instance-Keeps}
use siger_api_gateway.Discovery.Balancer.Counts.{
  instance_ids, mapped, lookup-set_count, lookup-instance_begin_end, lookup-update_instances,
  lookup-carry_counts, zero_counts-carry,
}
use siger_api_gateway.Discovery.Balancer.Interleaving.{
  minus_one, subtract, Ongoing, running, ending, instance_of, under_way, Reach, made, picks, begins,
  loads, subtracts, updates,
}
use siger_api_gateway.Discovery.Balancer.Interleaving.UnderWay.{
  under_way-middle, kept-under_way, All-middle, All-replace,
}

-- The second step takes one from the counter of the instance if the first has not seen zero.
pub lookup-subtract :
    (id j : String) (seen : ℕ) (lb : LoadBalancer)
    → 0 < seen
    → lookup j (subtract id seen lb).connection_count ≡ (
        if id == j
        then mapped minus_one (lookup j lb.connection_count)
        else lookup j lb.connection_count)
unfolding subtract
lookup-subtract id j seen lb pos =
    rw (ltb-true 0 seen pos) (lookup-set_count id j (λ n. minus_one n) lb)
  where
    ltb-true : (m n : ℕ) → m < n → ltb m n ≡ true
    ltb-true m n h = ground arith

-- A counter that is there is the number `u` of requests under way, and without one there are none.
abbrev pub Agrees : Option ℕ → ℕ → Type 0
Agrees count u = ((count ≡ none) × (u ≡ 0)) ⊎ (count ≡ some u)

Agrees-some : {n u : ℕ} → Agrees (some n) u → n ≡ u
Agrees-some (inl (e, _)) = cc
Agrees-some (inr e) = cc

Agrees-positive : {count : Option ℕ} {u : ℕ} → Agrees count u → 0 < u → count ≡ some u
Agrees-positive (inl (_, e)) h = absurd (omega (arith, e, h))
Agrees-positive (inr e) h = e

Agrees-or_zero : {count : Option ℕ} {u : ℕ} → Agrees count u → or_zero count ≡ u
Agrees-or_zero {count} (inl (e, z)) = ap or_zero e ∙ sym z
Agrees-or_zero {count} (inr e) = ap or_zero e

-- The counter of each instance is the number of requests under way to it, a `uint64` value; an
-- instance without a counter has none under way.
abbrev pub IsExact : List Ongoing → LoadBalancer → Type 0
IsExact rs lb =
    (id : String)
    → Agrees (lookup id lb.connection_count) (under_way id rs) × (under_way id rs < uint64_mod)

-- An end that has loaded the counter has seen at least its own request.
abbrev HasSeen : Ongoing → Type 0
HasSeen (running id) = Unit
HasSeen (ending id seen) = 0 < seen

begins-IsExact :
    (id : String) (n : ℕ) (rs : List Ongoing) (lb : LoadBalancer)
    → lookup id lb.connection_count ≡ some n
    → n < uint64_mod - 1
    → IsExact rs lb
    → IsExact (running id ∷ rs) (instance_begin id lb)
unfolding under_way
begins-IsExact id n rs lb e small exact j = elim (eq-cases id j) [
  | inl (same, t) ↦
      let here : lookup j lb.connection_count ≡ some n = rw (← same) e in
      let count : n ≡ under_way j rs = Agrees-some (rw here at (exact j).0) in
      let up : increment n ≡ n + 1 = omega arith in
      rw t (
        inr (
            (lookup-instance_begin_end id j lb).0
            ∙ rw (t, here, up, ← count) (ap some (omega arith))),
        omega arith,
      )
  | inr (_, t) ↦
      let unchanged = (lookup-instance_begin_end id j lb).0 in
      let same_count : 0 + under_way j rs ≡ under_way j rs = omega arith in
      rw (unchanged, t, same_count) (exact j)
]

subtracts-IsExact :
    (id : String) (seen : ℕ) (before after : List Ongoing) (lb : LoadBalancer)
    → 0 < seen
    → IsExact (before ++ ending id seen ∷ after) lb
    → IsExact (before ++ after) (subtract id seen lb)
subtracts-IsExact id seen before after lb pos exact j =
    let more = under_way-middle j before after (ending id seen) in
    let change = lookup-subtract id j seen lb pos in
    let (agrees, small) = exact j in
    elim (eq-cases id j) [
      | inl (_, t) ↦
          let one : under_way j (before ++ ending id seen ∷ after)
              ≡ 1 + under_way j (before ++ after) =
            more ∙ rw t refl in
          let count = Agrees-positive agrees (omega (arith, one)) in
          let down : minus_one (under_way j (before ++ ending id seen ∷ after))
              ≡ under_way j (before ++ after) =
            omega (arith, one, small) in
          (inr (change ∙ rw (t, count) (ap some down)), omega (arith, one, small))
      | inr (_, t) ↦
          let none_more : under_way j (before ++ ending id seen ∷ after)
              ≡ under_way j (before ++ after) =
            more ∙ rw t (omega arith) in
          rw (change, t, ← none_more) (exact j)
    ]

updates-IsExact :
    (new : List ServiceInstance) (rs : List Ongoing) (lb : LoadBalancer)
    → All (λ r. contains (instance_of r) (instance_ids new) ≡ true) rs
    → IsExact rs lb
    → IsExact rs (update_instances new lb)
updates-IsExact new rs lb kept exact j =
    let change = lookup-update_instances new lb j in
    let (agrees, small) = exact j in
    elim (Bool-cases (contains j (instance_ids new))) [
      | inl t ↦ (inr (change ∙ rw t (ap some (Agrees-or_zero agrees))), small)
      | inr t ↦ (inl (change ∙ rw t refl, kept-under_way j (instance_ids new) rs kept t), small)
    ]

made-IsExact :
    (t : LoadBalancerType) (is : List ServiceInstance) → IsExact [] (new_load_balancer t is)
unfolding new_load_balancer under_way lookup
made-IsExact t is j =
    let counts = ap (lookup j) (zero_counts-carry is []) ∙ lookup-carry_counts [] is [] j in
    elim (Bool-cases (contains j (instance_ids is))) [
      | inl e ↦ (inr (counts ∙ rw e refl), omega arith)
      | inr e ↦ (inl (counts ∙ rw e refl, refl), omega arith)
    ]

loads-IsExact :
    (id : String) (n : ℕ) (before after : List Ongoing) (lb : LoadBalancer)
    → IsExact (before ++ running id ∷ after) lb
    → IsExact (before ++ ending id n ∷ after) lb
loads-IsExact id n before after lb exact j =
    let same : under_way j (before ++ ending id n ∷ after)
        ≡ under_way j (before ++ running id ∷ after) =
      under_way-middle j before after (ending id n)
      ∙ sym (under_way-middle j before after (running id)) in
    rw same (exact j)

loads-positive :
    (id : String) (n : ℕ) (before after : List Ongoing) (lb : LoadBalancer)
    → lookup id lb.connection_count ≡ some n
    → IsExact (before ++ running id ∷ after) lb
    → 0 < n
loads-positive id n before after lb e exact =
    let count : n ≡ under_way id (before ++ running id ∷ after) =
      Agrees-some (rw e at (exact id).0) in
    let own : (if id == id then suc zero else zero) ≡ suc zero = rw (eq_refl id) refl in
    omega (arith, count, own, under_way-middle id before after (running id))

Reach-holds :
    {t : LoadBalancerType} {is : List ServiceInstance} {rs : List Ongoing} {lb : LoadBalancer}
    → Reach t is rs lb
    → IsExact rs lb × All HasSeen rs
Reach-holds {t} {is} made = (made-IsExact t is, tt)
Reach-holds (picks {rs} {lb} draw reach) =
    let (exact, seen) = Reach-holds reach in
    (λ id. rw (get_instance-Keeps draw lb).1 (exact id), seen)
Reach-holds (begins {rs} {lb} id n e small reach) =
    let (exact, seen) = Reach-holds reach in (begins-IsExact id n rs lb e small exact, (tt, seen))
Reach-holds (loads {lb} id n before after e reach) =
    let (exact, seen) = Reach-holds reach in
    (
      loads-IsExact id n before after lb exact,
      All-replace HasSeen before after (running id) (ending id n)
          (loads-positive id n before after lb e exact) seen,
    )
Reach-holds (subtracts {lb} id n before after reach) =
    let (exact, seen) = Reach-holds reach in
    let (pos, others) = All-middle HasSeen before after (ending id n) seen in
    (subtracts-IsExact id n before after lb pos exact, others)
Reach-holds (updates {rs} {lb} new waiting kept reach) =
    let (exact, seen) = Reach-holds reach in (updates-IsExact new rs lb kept exact, seen)

-- However requests overlap, the two steps of their ends included, the counter of each instance is the
-- number of requests under way to it, under three conditions: no request begins at an instance
-- without a counter, such as one that an update has dropped since it was chosen; no update drops an
-- instance that has requests, or comes while an end is between its steps; and no instance has
-- 2^64 - 1 requests when another begins.
pub Reach-IsExact :
    (t : LoadBalancerType) (is : List ServiceInstance) {rs : List Ongoing} {lb : LoadBalancer}
    → Reach t is rs lb
    → IsExact rs lb
Reach-IsExact t is reach = (Reach-holds reach).0
