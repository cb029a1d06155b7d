-- ===== src/Discovery/Balancer/Members.antt =====
-- Whatever its type, a balancer returns one of its instances.
use siger_api_gateway.Common.{
  ℕ, ◌-◌, ◌≡◌, refl, ◌⊎◌, inl, inr, ◌==◌, Option, none, some, List, [], ◌∷◌, In, get_elem?, length,
  Bool-cases, Bool, if◌then◌else◌, ℤ, pos, negsuc, true, false,
}
use siger_api_gateway.Discovery.Instance.{ServiceInstance}
use siger_api_gateway.Discovery.Balancer.{
  LoadBalancer, uint64_mod, round_robin, random, least_connections, least_index, get_instance,
  select, next_in_turn, next_count, index, Selected, selected, chosen, no_instances, to_int, rem,
}
use siger_api_gateway.Discovery.Balancer.LeastConnections.{In-of_get_elem?}

selected-In :
    (o : Option ServiceInstance) (is : List ServiceInstance) (i : ServiceInstance)
    → ((j : ServiceInstance) → o ≡ some j → In j is)
    → selected o ≡ chosen i
    → In i is
selected-In none is i inside e = cc
selected-In (some j) is i inside e = let same : j ≡ i = cc in rw (← same) (inside j refl)

index-In : (is : List ServiceInstance) (z : ℤ) (j : ServiceInstance) → index is z ≡ some j → In j is
index-In is (pos k) j e = In-of_get_elem? is k e
index-In is (negsuc k) j e = cc

next_in_turn-In :
    (lb : LoadBalancer) (i : ServiceInstance)
    → (next_in_turn lb).1 ≡ chosen i
    → In i lb.service_instances
unfolding next_in_turn
next_in_turn-In lb i e =
    let is = lb.service_instances in
    let z = rem (to_int (next_count lb)) (length is) in
    selected-In (index is z) is i (index-In is z) e

select-In :
    (draw : ℕ) (lb : LoadBalancer) (i : ServiceInstance)
    → (select draw lb).1 ≡ chosen i
    → In i lb.service_instances
unfolding select
select-In draw lb i e =
    let is = lb.service_instances in
    elim (Bool-cases (lb.lb_type == round_robin)) [
      | inl t ↦ next_in_turn-In lb i (rw (select, t) at e)
      | inr t ↦ elim (Bool-cases (lb.lb_type == random)) [
        | inl t' ↦
            selected-In (get_elem? is draw) is i (λ j. In-of_get_elem? is draw)
              (rw (select, t, t') at e)
        | inr t' ↦ elim (Bool-cases (lb.lb_type == least_connections)) [
          | inl t'' ↦
              let k = least_index lb.connection_count is 0 (uint64_mod - 1) 0 in
              selected-In (get_elem? is k) is i (λ j. In-of_get_elem? is k)
                (rw (select, t, t', t'') at e)
          | inr t'' ↦ next_in_turn-In lb i (rw (select, t, t', t'') at e)
        ]
      ]
    ]

not_chosen : (i : ServiceInstance) → ¬ (no_instances ≡ chosen i)
not_chosen i e = cc

-- An instance that a balancer of any type returns is one of its own.
pub get_instance-In :
    (draw : ℕ) (lb : LoadBalancer) (i : ServiceInstance)
    → (get_instance draw lb).1 ≡ chosen i
    → In i lb.service_instances
unfolding get_instance
get_instance-In draw lb i e = elim (list_cases lb.service_instances) [
  | inl empty ↦ elim (not_chosen i (rw (get_instance, empty) at e)) [ ]
  | inr (j, is, has) ↦ select-In draw lb i (rw (get_instance, has) at e)
]
  where
    list_cases :
        (is : List ServiceInstance)
        → (is ≡ []) ⊎ ((j : ServiceInstance) × (js : List ServiceInstance) × (is ≡ j ∷ js))
    list_cases [] = inl refl
    list_cases (j ∷ js) = inr (j, js, refl)

-- A choice changes nothing but the counter of the balancer.
abbrev Keeps : LoadBalancer → LoadBalancer → Type 0
Keeps lb lb' =
    (lb'.service_instances ≡ lb.service_instances) × (lb'.connection_count ≡ lb.connection_count)

if-Keeps :
    (b : Bool) (lb : LoadBalancer) (x y : LoadBalancer × Selected)
    → Keeps lb x.0
    → Keeps lb y.0
    → Keeps lb (if b then x else y).0
if-Keeps true lb x y k k' = k
if-Keeps false lb x y k k' = k'

select-Keeps : (draw : ℕ) (lb : LoadBalancer) → Keeps lb (select draw lb).0
unfolding select next_in_turn
select-Keeps draw lb =
    if-Keeps (lb.lb_type == round_robin) lb _ _ (refl, refl)
      (if-Keeps (lb.lb_type == random) lb _ _ (refl, refl)
        (if-Keeps (lb.lb_type == least_connections) lb _ _ (refl, refl) (refl, refl)))

pub get_instance-Keeps : (draw : ℕ) (lb : LoadBalancer) → Keeps lb (get_instance draw lb).0
unfolding get_instance
get_instance-Keeps draw lb = keeps lb.service_instances
  where
    keeps :
        (is : List ServiceInstance)
        → Keeps lb
            (elim is as (λ x. LoadBalancer × Selected) [
              | [] ↦ (lb, no_instances)
              | _ ∷ _ ↦ select draw lb
            ]).0
    keeps [] = (refl, refl)
    keeps (j ∷ js) = select-Keeps draw lb
