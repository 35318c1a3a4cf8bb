-- ===== src/Metrics/PodMemory.antt =====
-- resource_metrics.go: the memory of the pods, from the samples of the metrics API. A 64-bit integer
-- is its bit pattern, a number below 2 ^ 64.
use pulse_operator.Prelude.{
  ℕ, ◌+◌, ◌%◌, ◌<◌, String, Bool, true, false, ltb, Option, none, some, List, [], ◌∷◌, Dict, lookup,
  if◌then◌else◌, ◌≡◌, refl, sym, ap, ◌∙◌, arith, Option-cases, inl, inr,
}
use mathlib.Core.Path.{subst}
use pulse_operator.Api.{OpenShiftPulse, Resources}
use pulse_operator.Metrics.{due_for_observed_memory_check}
use pulse_operator.Features.{agent_resources}
use pulse_operator.Ui.Template.{ui_resources}

abbrev two_63 : ℕ
two_63 = 9223372036854775808

abbrev two_64 : ℕ
two_64 = 18446744073709551616

-- `a > b` on int64.
unfoldable pub greater_int64 : ℕ → ℕ → Bool
greater_int64 a b = ltb ((b + two_63) % two_64) ((a + two_63) % two_64)

-- A container: the text of its usage.memory, where it is a map that holds one. A pod: its containers,
-- where it holds a list of them.
abbrev pub Sample : Type 0
Sample = Option String

abbrev pub PodSample : Type 0
PodSample = Option (List Sample)

-- The gauges of a component: none until they are set.
pub record Gauges : Type 0 where
  pub requested : Option ℕ
  pub observed : Option ℕ

-- The requested memory of a container; 0 where nothing is said of it.
unfoldable pub requested_memory : Resources → ℕ
requested_memory resources = elim resources.requests [
  | none ↦ 0
  | some quantities ↦ elim (lookup "memory" quantities) [ none ↦ 0 | some bytes ↦ bytes ]
]

unfoldable pub agent_requested_memory_bytes : OpenShiftPulse → ℕ
unfolding requested_memory
agent_requested_memory_bytes cr = requested_memory (agent_resources cr)

unfoldable pub ui_requested_memory_bytes : OpenShiftPulse → ℕ
unfolding requested_memory
ui_requested_memory_bytes cr = requested_memory (ui_resources cr)

-- resource.ParseQuantity and Value are an argument: none is an error.
module _ (parse : String → Option ℕ) where
  unfoldable pub quantity : Sample → Option ℕ
  quantity none = none
  quantity (some text) = parse text

  -- The body of the loop over the containers: the total, and whether a value was found.
  unfoldable pub add_sample : Option ℕ → ℕ × Bool → ℕ × Bool
  add_sample none state = state
  add_sample (some value) (total, any) = ((total + value) % two_64, true)

  unfoldable pub add_samples : List Sample → ℕ × Bool → ℕ × Bool
  unfolding quantity add_sample
  add_samples [] state = state
  add_samples (c ∷ rest) state = add_samples rest (add_sample (quantity c) state)

  unfoldable pub pod_memory_bytes : PodSample → ℕ × Bool
  unfolding add_samples
  pod_memory_bytes none = (0, false)
  pod_memory_bytes (some containers) = add_samples containers (0, false)

  unfoldable pub take_larger : ℕ × Bool → ℕ × Bool → ℕ × Bool
  unfolding greater_int64
  take_larger (bytes, false) state = state
  take_larger (bytes, true) (max, any) = (if greater_int64 bytes max then bytes else max, true)

  unfoldable pub larger_of : List PodSample → ℕ × Bool → ℕ × Bool
  unfolding pod_memory_bytes take_larger
  larger_of [] state = state
  larger_of (item ∷ rest) state = larger_of rest (take_larger (pod_memory_bytes item) state)

  unfoldable pub max_pod_memory_bytes : List PodSample → ℕ × Bool
  unfolding larger_of
  max_pod_memory_bytes items = larger_of items (0, false)

  -- What the gauge is set to after a check that was due; none leaves it. The list is none where the
  -- metrics API answers with an error.
  unfoldable pub observed_memory : Option (List PodSample) → Option ℕ
  unfolding max_pod_memory_bytes
  observed_memory none = none
  observed_memory (some items) =
      let (bytes, any) = max_pod_memory_bytes items in if any then some bytes else none

  -- reconcileObservedMemoryMetrics: the two gauges and the throttle after a call, from those before.
  unfoldable pub reconcile_observed_memory_metrics :
      String → ℕ → ℕ → Option (List PodSample) → Gauges × Dict ℕ → Gauges × Dict ℕ
  unfolding observed_memory
  reconcile_observed_memory_metrics key now requested list (gauges, last_check) =
      let (due, checked) = due_for_observed_memory_check key now last_check in
      let seen : Option ℕ = elim (observed_memory list) [
        | none ↦ gauges.observed
        | some bytes ↦ some bytes
      ] in
      (
        record { requested = some requested; observed = if due then seen else gauges.observed },
        checked,
      )

  -- The plain sum of a pod's values, where it has one.
  unfoldable pub plus : Option ℕ → Option ℕ → Option ℕ
  plus none n = n
  plus (some m) none = some m
  plus (some m) (some n) = some (m + n)

  unfoldable pub pod_total : List Sample → Option ℕ
  unfolding plus
  pod_total [] = none
  pod_total (c ∷ rest) = plus (quantity c) (pod_total rest)

  unfoldable pub larger : Option ℕ → Option ℕ → Option ℕ
  larger none n = n
  larger (some m) none = some m
  larger (some m) (some n) = some (if ltb m n then n else m)

  -- The largest of the plain sums, where a pod has one.
  unfoldable pub largest_total : List PodSample → Option ℕ
  unfolding pod_total larger
  largest_total [] = none
  largest_total (none ∷ rest) = largest_total rest
  largest_total (some pod ∷ rest) = larger (pod_total pod) (largest_total rest)

  abbrev pub Fits : Option ℕ → Type 0
  Fits none = Unit
  Fits (some n) = n < two_63

  -- No pod's sum overflows an int64.
  abbrev pub Fit : List PodSample → Type 0
  Fit [] = Unit
  Fit (none ∷ rest) = Fit rest
  Fit (some pod ∷ rest) = Fits (pod_total pod) × Fit rest

  -- The result of a loop that found this.
  abbrev of_total : Option ℕ → ℕ × Bool
  of_total none = (0, false)
  of_total (some n) = (n, true)

  plus_assoc : (t v : ℕ) (r : Option ℕ) → plus (some t) (plus (some v) r) ≡ plus (some (t + v)) r
  unfolding plus
  plus_assoc t v none = refl
  plus_assoc t v (some n) = ap some (omega arith)

  Fits-left : (a : ℕ) (r : Option ℕ) → Fits (plus (some a) r) → a % two_64 ≡ a
  unfolding plus
  Fits-left a none h = omega arith
  Fits-left a (some n) h = omega arith

  add_samples-found :
      (pod : List Sample) (t : ℕ)
      → Fits (plus (some t) (pod_total pod))
      → add_samples pod (t, true) ≡ of_total (plus (some t) (pod_total pod))
  unfolding add_samples add_sample pod_total plus
  add_samples-found [] t h = refl
  add_samples-found (c ∷ rest) t h = elim (Option-cases (quantity c)) [
    | inl n ↦ rw n (add_samples-found rest t (rw n at h))
    | inr (v, q) ↦
        let grouped = plus_assoc t v (pod_total rest) in
        let fits = subst Fits grouped (rw q at h) in
        rw q (
          rw (Fits-left (t + v) (pod_total rest) fits)
            (add_samples-found rest (t + v) fits ∙ ap of_total (sym grouped)))
  ]

  add_samples-start :
      (pod : List Sample)
      → Fits (pod_total pod)
      → add_samples pod (0, false) ≡ of_total (pod_total pod)
  unfolding add_samples add_sample pod_total plus
  add_samples-start [] h = refl
  add_samples-start (c ∷ rest) h = elim (Option-cases (quantity c)) [
    | inl n ↦ rw n (add_samples-start rest (rw n at h))
    | inr (v, q) ↦
        let fits : Fits (plus (some v) (pod_total rest)) = rw q at h in
        let small : (0 + v) % two_64 ≡ v = omega (arith, Fits-left v (pod_total rest) fits) in
        rw q (rw small (add_samples-found rest v fits))
  ]

  take_larger-of_total :
      (x m : Option ℕ)
      → Fits x
      → Fits m
      → (take_larger (of_total x) (of_total m) ≡ of_total (larger m x)) × Fits (larger m x)
  unfolding take_larger larger greater_int64
  take_larger-of_total none none h k = (refl, tt)
  take_larger-of_total none (some m) h k = (refl, k)
  take_larger-of_total (some n) none h k = (ground arith, h)
  take_larger-of_total (some n) (some m) h k = (ground arith, ground arith)

  larger_assoc : (m x r : Option ℕ) → larger (larger m x) r ≡ larger m (larger x r)
  unfolding larger
  larger_assoc none x r = refl
  larger_assoc (some m) none r = refl
  larger_assoc (some m) (some n) none = refl
  larger_assoc (some m) (some n) (some k) = ground arith

  larger_of-total :
      (items : List PodSample) (m : Option ℕ)
      → Fit items
      → Fits m
      → larger_of items (of_total m) ≡ of_total (larger m (largest_total items))
  unfolding larger_of largest_total larger pod_memory_bytes take_larger
  larger_of-total [] none h k = refl
  larger_of-total [] (some m) h k = refl
  larger_of-total (none ∷ rest) m h k = larger_of-total rest m h k
  larger_of-total (some pod ∷ rest) m h k =
      let total = pod_total pod in
      let (taken, fits) = take_larger-of_total total m h.0 k in
      rw (add_samples-start pod h.0) (
        rw taken (
          larger_of-total rest (larger m total) h.1 fits
          ∙ ap of_total (larger_assoc m total (largest_total rest))))

  -- If no pod's sum overflows, the published memory is the largest plain sum of a pod's values; it is
  -- left alone where no pod has a value that can be read.
  pub observed_memory-largest :
      (items : List PodSample) → Fit items → observed_memory (some items) ≡ largest_total items
  unfolding observed_memory max_pod_memory_bytes larger
  observed_memory-largest items fits =
      rw (larger_of-total items none fits tt) (of_total-cases (largest_total items))
    where
      of_total-cases :
          (m : Option ℕ)
          → (if (of_total (larger none m)).1 then some (of_total (larger none m)).0 else none) ≡ m
      of_total-cases none = refl
      of_total-cases (some n) = refl
