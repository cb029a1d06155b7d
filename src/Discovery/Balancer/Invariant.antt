-- ===== src/Discovery/Balancer/Invariant.antt =====
-- The invariant of the load balancer, and that every sequence of calls keeps it.
use siger_api_gateway.Common.{
  ℕ, ◌<◌, ◌≡◌, ap, ◌≢◌, inl, inr, String, true, none, List, [], ◌∷◌, Map, lookup, store, arith, All,
  All-map, All-store, All-lookup, lookup-store, Option-cases, eq_refl, contains,
}
use siger_api_gateway.Discovery.Instance.{ServiceInstance}
use siger_api_gateway.Discovery.Balancer.{
  LoadBalancer, LoadBalancerType, uint64_mod, new_load_balancer, update_instances, carry_counts,
  or_zero, instance_begin, instance_end, increment, decrement, get_instance, next_in_turn,
  set_count,
}
use siger_api_gateway.Discovery.Balancer.LeastConnections.{IsTracked}
use siger_api_gateway.Discovery.Balancer.Counts.{
  instance_ids, lookup-carry_counts, zero_counts-carry,
}

abbrev IsWord : String × ℕ → Type 0
IsWord e = e.1 < uint64_mod

-- Each instance has a counter, and all numbers are `uint64` values.
pub record IsValid (lb : LoadBalancer) : Type 0 where
  pub tracked : All (λ x. lookup x.id lb.connection_count ≢ none) lb.service_instances
  pub words : All IsWord lb.connection_count
  pub counter_word : lb.counter < uint64_mod

or_zero-lt :
    (counts : Map ℕ) (id : String) → All IsWord counts → or_zero (lookup id counts) < uint64_mod
or_zero-lt counts id w = elim (Option-cases (lookup id counts)) [
  | inl e ↦ omega (arith, ap or_zero e)
  | inr (n, e) ↦ omega (arith, ap or_zero e, All-lookup IsWord id n counts w e)
]

carry_counts-words :
    (old : Map ℕ) (is : List ServiceInstance) (counts : Map ℕ)
    → All IsWord old
    → All IsWord counts
    → All IsWord (carry_counts old is counts)
unfolding carry_counts
carry_counts-words old [] counts w h = h
carry_counts-words old (x ∷ xs) counts w h =
    carry_counts-words old xs (store x.id (or_zero (lookup x.id old)) counts) w
      (All-store IsWord x.id _ counts (or_zero-lt old x.id w) h)

-- The IDs of the instances of a list are among them.
ids-contain : (is : List ServiceInstance) → All (λ x. contains x.id (instance_ids is) ≡ true) is
unfolding contains
ids-contain [] = tt
ids-contain (x ∷ xs) = (rw (eq_refl x.id), All-map (λ y h. ground arith) xs (ids-contain xs))

update_instances-IsValid :
    (is : List ServiceInstance) (lb : LoadBalancer) → IsValid lb → IsValid (update_instances is lb)
unfolding update_instances
update_instances-IsValid is lb v = record {
  tracked =
      All-map (λ x h. ground (arith, lookup-carry_counts lb.connection_count is [] x.id)) is
        (ids-contain is);
  words = carry_counts-words lb.connection_count is [] v.words tt;
  counter_word = v.counter_word;
}

new_load_balancer-IsValid :
    (t : LoadBalancerType) (is : List ServiceInstance) → IsValid (new_load_balancer t is)
unfolding new_load_balancer
new_load_balancer-IsValid t is = record {
  tracked =
      All-map (λ x h. ground (arith, lookup-carry_counts [] is [] x.id, zero_counts-carry is [])) is
        (ids-contain is);
  words = rw (zero_counts-carry is []) (carry_counts-words [] is [] tt tt);
  counter_word = omega arith;
}

next_in_turn-IsValid : (lb : LoadBalancer) → IsValid lb → IsValid (next_in_turn lb).0
unfolding next_in_turn
next_in_turn-IsValid lb v = record {
  tracked = v.tracked;
  words = v.words;
  counter_word = omega arith;
}

get_instance-IsValid :
    (draw : ℕ) (lb : LoadBalancer) → IsValid lb → IsValid (get_instance draw lb).0
unfolding get_instance
get_instance-IsValid draw lb v = ground (arith, v, next_in_turn-IsValid lb v)

-- The two operations on a counter.
abbrev Keeps : (ℕ → ℕ) → Type 0
Keeps f = (n : ℕ) → n < uint64_mod → f n < uint64_mod

set_count-IsValid :
    (id : String) (f : ℕ → ℕ) (lb : LoadBalancer)
    → Keeps f
    → IsValid lb
    → IsValid (set_count id (lookup id lb.connection_count) f lb)
unfolding set_count
set_count-IsValid id f lb k v = elim (Option-cases (lookup id lb.connection_count)) [
  | inl e ↦ rw e v
  | inr (n, e) ↦ rw e (record {
    tracked =
        All-map (λ x h. ground (arith, lookup-store id x.id (f n) lb.connection_count))
          lb.service_instances v.tracked;
    words =
        All-store IsWord id (f n) lb.connection_count
          (k n (All-lookup IsWord id n lb.connection_count v.words e)) v.words;
    counter_word = v.counter_word;
  })
]

-- The calls that change a balancer; `picks` carries the random draw.
pub data Call : Type 0 where
  updates : List ServiceInstance → Call
  picks : ℕ → Call
  begins ends : String → Call

unfoldable pub perform : LoadBalancer → Call → LoadBalancer
perform lb (updates is) = update_instances is lb
perform lb (picks draw) = (get_instance draw lb).0
perform lb (begins id) = instance_begin id lb
perform lb (ends id) = instance_end id lb

unfoldable pub perform_all : LoadBalancer → List Call → LoadBalancer
perform_all lb [] = lb
perform_all lb (c ∷ cs) = perform_all (perform lb c) cs

perform-IsValid : (lb : LoadBalancer) (c : Call) → IsValid lb → IsValid (perform lb c)
unfolding perform instance_begin instance_end
perform-IsValid lb (updates is) v = update_instances-IsValid is lb v
perform-IsValid lb (picks draw) v = get_instance-IsValid draw lb v
perform-IsValid lb (begins id) v = set_count-IsValid id (λ n. increment n) lb (λ n h. omega arith) v
perform-IsValid lb (ends id) v = set_count-IsValid id (λ n. decrement n) lb (λ n h. ground arith) v

perform_all-keeps : (lb : LoadBalancer) (cs : List Call) → IsValid lb → IsValid (perform_all lb cs)
unfolding perform_all
perform_all-keeps lb [] v = v
perform_all-keeps lb (c ∷ cs) v = perform_all-keeps (perform lb c) cs (perform-IsValid lb c v)

-- However a balancer is made and used, each of its instances has a connection counter, and all its
-- counters are `uint64` values.
pub lb_perform_all-IsValid :
    (t : LoadBalancerType) (is : List ServiceInstance) (cs : List Call)
    → IsValid (perform_all (new_load_balancer t is) cs)
lb_perform_all-IsValid t is cs =
    perform_all-keeps (new_load_balancer t is) cs (new_load_balancer-IsValid t is)

-- So the hypothesis of the least-connections choice holds of it.
pub IsValid-IsTracked :
    (lb : LoadBalancer) → IsValid lb → All (IsTracked lb.connection_count) lb.service_instances
IsValid-IsTracked lb v = All-map track lb.service_instances v.tracked
  where
    track :
        (x : ServiceInstance)
        → lookup x.id lb.connection_count ≢ none
        → IsTracked lb.connection_count x
    track x h = elim (Option-cases (lookup x.id lb.connection_count)) [
      | inl e ↦ absurd (h e)
      | inr (n, e) ↦ (n, e, All-lookup IsWord x.id n lb.connection_count v.words e)
    ]
