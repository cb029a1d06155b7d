-- ===== src/Discovery/Balancer/RoundRobin.antt =====
-- The round-robin choice of internal/discovery/loadbalancer.go, and the panic after 2^63 calls.
use siger_api_gateway.Common.{
  ℕ, zero, suc, ◌+◌, ◌-◌, ◌*◌, ◌/◌, ◌%◌, ◌≤◌, ◌<◌, ◌^◌, ◌≡◌, refl, ap, sym, ◌∙◌, ◌≢◌, false, none,
  some, List, [], ◌∷◌, arith, length, get_elem?, ltb, ne→eq_false,
}
use native.Mathlib.Decide.{dec_le}
use native.Mathlib.Nat.{mod-lt, mod-eq_of_lt, mod-add-div, add-mul-mod_self_left}
use siger_api_gateway.Discovery.Instance.{ServiceInstance}
use siger_api_gateway.Discovery.Balancer.{
  LoadBalancer, LoadBalancerType, uint64_mod, random, least_connections, next_in_turn, next_count,
  to_int, rem, index, negate, selected, get_instance, index_out_of_range, chosen,
}

-- `RoundRobin`, or any type that the switch of `GetInstance` does not name.
abbrev pub TakesTurns : LoadBalancerType → Type 0
TakesTurns t = (t ≢ random) × (t ≢ least_connections)

-- The index of the next call.
abbrev pub turn : ℕ → List ServiceInstance → ℕ
turn count is = count % length is

get_instance-next :
    (draw : ℕ) (lb : LoadBalancer) (x : ServiceInstance) (xs : List ServiceInstance)
    → TakesTurns lb.lb_type
    → lb.service_instances ≡ x ∷ xs
    → get_instance draw lb ≡ next_in_turn lb
unfolding get_instance
get_instance-next draw lb x xs (r, l) is =
    ground (arith, is, ne→eq_false lb.lb_type random r, ne→eq_false lb.lb_type least_connections l)

next_in_turn_below :
    (lb : LoadBalancer)
    → lb.counter + 1 < 2 ^ 63
    → next_in_turn lb ≡ (
      record lb { counter = lb.counter + 1 },
      selected (get_elem? lb.service_instances (turn (lb.counter + 1) lb.service_instances)),
    )
unfolding next_in_turn
next_in_turn_below lb h =
    let small : (lb.counter + 1) % uint64_mod ≡ lb.counter + 1 = omega arith in
    rw small (ground arith)

-- The balancer after a number of calls.
pub calls : ℕ → LoadBalancer → LoadBalancer
calls zero lb = lb
calls (suc k) lb = calls k (get_instance 0 lb).0

module _ (x : ServiceInstance) (xs : List ServiceInstance) where
  get_instance-turn :
      (draw : ℕ) (lb : LoadBalancer)
      → TakesTurns lb.lb_type
      → lb.service_instances ≡ x ∷ xs
      → lb.counter + 1 < 2 ^ 63
      → get_instance draw lb ≡ (
        record lb { counter = lb.counter + 1 },
        selected (get_elem? lb.service_instances (turn (lb.counter + 1) lb.service_instances)),
      )
  get_instance-turn draw lb t is h = get_instance-next draw lb x xs t is ∙ next_in_turn_below lb h

  calls-counter :
      (k : ℕ) (lb : LoadBalancer)
      → TakesTurns lb.lb_type
      → lb.service_instances ≡ x ∷ xs
      → lb.counter + k < 2 ^ 63
      → calls k lb ≡ record lb { counter = lb.counter + k }
  unfolding calls
  calls-counter zero lb t is h = ap (λ c. record lb { counter = c }) (omega arith)
  calls-counter (suc k) lb t is h =
      ap (λ r. calls k r.0) (get_instance-turn 0 lb t is (omega arith))
      ∙ (calls-counter k (record lb { counter = lb.counter + 1 }) t is (omega arith)
          ∙ ap (λ c. record lb { counter = c }) (omega arith))

get_elem?_total :
    (xs : List ServiceInstance) (i : ℕ)
    → i < length xs
    → (y : ServiceInstance) × (get_elem? xs i ≡ some y)
get_elem?_total [] i h = absurd (omega arith)
get_elem?_total (x ∷ xs) zero h = (x, refl)
get_elem?_total (x ∷ xs) (suc i) h = get_elem?_total xs i (omega arith)

get_elem?-lt :
    (xs : List ServiceInstance) (i : ℕ) {y : ServiceInstance}
    → get_elem? xs i ≡ some y
    → i < length xs
get_elem?-lt [] i h = cc
get_elem?-lt (x ∷ xs) zero h = omega arith
get_elem?-lt (x ∷ xs) (suc i) h = omega (arith, get_elem?-lt xs i h)

-- Among n numbers in a row one is i modulo n.
turn_at : (c i n : ℕ) → i < n → (k : ℕ) × (k < n) × ((c + k) % n ≡ i)
turn_at c i n h = elim (dec_le (c % n) i) [
  | yes up ↦ (i - c % n, omega arith, from (i - c % n) (c / n) (omega (arith, mod-add-div c n)))
  | no down ↦ (
    i + n - c % n,
    omega (arith, mod-lt c {m = n} (omega arith)),
    from (i + n - c % n) (c / n + 1)
        (omega (arith, mod-add-div c n, mod-lt c {m = n} (omega arith))),
  )
]
  where
    from : (k q : ℕ) → c + k ≡ i + n * q → (c + k) % n ≡ i
    from k q e = rw e (add-mul-mod_self_left i n q ∙ mod-eq_of_lt h)

-- As long as the counter stays below 2^63, the call after `k` calls returns the instance at the
-- index (counter + k + 1) mod n of the n instances; no such call fails or panics.
pub get_instance-calls :
    (k draw : ℕ) (lb : LoadBalancer) (x : ServiceInstance) (xs : List ServiceInstance)
    → TakesTurns lb.lb_type
    → lb.service_instances ≡ x ∷ xs
    → lb.counter + k + 1 < 2 ^ 63
    → (y : ServiceInstance) × ((get_instance draw (calls k lb)).1 ≡ chosen y)
      × (get_elem? (x ∷ xs) ((lb.counter + k + 1) % length (x ∷ xs)) ≡ some y)
get_instance-calls k draw lb x xs t is h =
    let (y, at) =
      get_elem?_total (x ∷ xs) ((lb.counter + k + 1) % length (x ∷ xs)) (mod-lt _ (omega arith)) in
    (y, result y at, at)
  where
    result :
        (y : ServiceInstance)
        → get_elem? (x ∷ xs) ((lb.counter + k + 1) % length (x ∷ xs)) ≡ some y
        → (get_instance draw (calls k lb)).1 ≡ chosen y
    result y at =
        ap (λ b. (get_instance draw b).1) (calls-counter x xs k lb t is (omega arith))
        ∙ (ap (λ r. r.1)
              (get_instance-turn x xs draw (record lb { counter = lb.counter + k }) t is h)
            ∙ (ap (λ l. selected (get_elem? l ((lb.counter + k + 1) % length l))) is
                ∙ ap selected at))

-- Below 2^63, each of the n instances is returned by one of n calls in a row.
pub get_instance_fair :
    (draw i : ℕ) (lb : LoadBalancer) (x y : ServiceInstance) (xs : List ServiceInstance)
    → TakesTurns lb.lb_type
    → lb.service_instances ≡ x ∷ xs
    → lb.counter + length (x ∷ xs) < 2 ^ 63
    → get_elem? (x ∷ xs) i ≡ some y
    → (k : ℕ) × (k < length (x ∷ xs)) × ((get_instance draw (calls k lb)).1 ≡ chosen y)
get_instance_fair draw i lb x y xs t is h at =
    let n = length (x ∷ xs) in
    let (k, below, hits) = turn_at (lb.counter + 1) i n (get_elem?-lt (x ∷ xs) i at) in
    let (z, result, at') = get_instance-calls k draw lb x xs t is (omega arith) in
    let same : (lb.counter + k + 1) % n ≡ i = ap (λ c. c % n) (omega arith) ∙ hits in
    let e : some z ≡ some y = sym at' ∙ (ap (get_elem? (x ∷ xs)) same ∙ at) in
    (k, below, cc (result, e))

index-negate : (k : ℕ) (l : List ServiceInstance) → k ≢ 0 → index l (negate k) ≡ none
index-negate zero l h = absurd (h refl)
index-negate (suc k) l h = refl

index-negative :
    (count n : ℕ) (l : List ServiceInstance)
    → 2 ^ 63 ≤ count
    → count < 2 ^ 64
    → (2 ^ 64 - count) % n ≢ 0
    → index l (rem (to_int count) n) ≡ none
unfolding rem to_int
index-negative count n l low high odd =
    let e : ltb count (2 ^ 63) ≡ false = ground arith in
    let same : suc (uint64_mod - count - 1) ≡ 2 ^ 64 - count = omega arith in
    rw (e, same) (index-negate ((2 ^ 64 - count) % n) l odd)

-- The bug: the call that takes the counter to `count`, 2^63 or more, panics unless the number of
-- instances divides 2^64 - count.
pub get_instance_panics :
    (draw : ℕ) (lb : LoadBalancer) (x : ServiceInstance) (xs : List ServiceInstance)
    → TakesTurns lb.lb_type
    → lb.service_instances ≡ x ∷ xs
    → 2 ^ 63 ≤ lb.counter + 1
    → lb.counter + 1 < 2 ^ 64
    → (2 ^ 64 - (lb.counter + 1)) % length (x ∷ xs) ≢ 0
    → (get_instance draw lb).1 ≡ index_out_of_range
unfolding next_in_turn
get_instance_panics draw lb x xs t is low high odd =
    ap (λ r. r.1) (get_instance-next draw lb x xs t is)
    ∙ (ap (λ l. selected (index l (rem (to_int (next_count lb)) (length l)))) is
        ∙ ap selected (
            ap (λ c. index (x ∷ xs) (rem (to_int c) (length (x ∷ xs)))) (omega arith)
            ∙ index-negative (lb.counter + 1) (length (x ∷ xs)) (x ∷ xs) low high odd))
