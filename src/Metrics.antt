-- ===== src/Metrics.antt =====
-- resource_metrics.go: how often the metrics API is asked, and what is forgotten with an instance.
-- Publishing is the Prometheus client's.
pub mod PodMemory
use Prim.Native.String.{◌++◌}
use text.Mathlib.Text.{starts_with}
use pulse_operator.Prelude.{
  ℕ, ◌-◌, String, Bool, true, false, not, ltb, ◌==◌, Option, none, some, Dict, lookup, insert,
  lookup-insert, keep, if◌then◌else◌, ◌≡◌, ◌≢◌, arith, eq_iff,
}

-- Five minutes, in nanoseconds.
abbrev pub observed_memory_check_interval : ℕ
observed_memory_check_interval = 300000000000

abbrev check_due : ℕ → Option ℕ → Bool
check_due now none = true
check_due now (some last) = not (ltb (now - last) observed_memory_check_interval)

-- The answer, and `lastMemCheckAt` after the call; the lock makes a call one step.
unfoldable pub due_for_observed_memory_check : String → ℕ → Dict ℕ → Bool × Dict ℕ
due_for_observed_memory_check key now last_check =
    if check_due now (lookup key last_check)
    then (true, insert key now last_check)
    else (false, last_check)

-- The key of a component of an instance.
unfoldable pub memory_check_key : String → String → String → String
memory_check_key namespace name component = namespace ++ ("/" ++ (name ++ ("/" ++ component)))

-- The part of forgetInstanceMetrics that concerns the throttle.
unfoldable pub forget_memory_checks : String → String → Dict ℕ → Dict ℕ
forget_memory_checks namespace name last_check =
    keep (λ (key, last). not (starts_with key (namespace ++ ("/" ++ (name ++ "/"))))) last_check

last_after :
    (key other : String) (now : ℕ) (last_check : Dict ℕ)
    → lookup key (due_for_observed_memory_check other now last_check).1 ≡ (
        if other == key
        then if check_due now (lookup key last_check) then some now else lookup key last_check
        else lookup key last_check)
unfolding due_for_observed_memory_check
last_after key other now last_check =
    ground (arith, eq_iff other key, lookup-insert other key now last_check)

due_of_lookup :
    (key : String) (now : ℕ) (last_check : Dict ℕ)
    → (due_for_observed_memory_check key now last_check).0 ≡ check_due now (lookup key last_check)
unfolding due_for_observed_memory_check
due_of_lookup key now last_check = ground arith

-- After a check was granted, the next call for the same component is granted exactly when five
-- minutes have passed since, with a call for another component in between.
pub memory_checks_spaced :
    (key other : String) (granted between now : ℕ) (last_check : Dict ℕ)
    → (due_for_observed_memory_check key granted last_check).0 ≡ true
    → other ≢ key
    → (due_for_observed_memory_check key now
        (due_for_observed_memory_check other between
          (due_for_observed_memory_check key granted last_check).1).1).0
      ≡ not (ltb (now - granted) observed_memory_check_interval)
memory_checks_spaced key other granted between now last_check due ne =
    let first = (due_for_observed_memory_check key granted last_check).1 in
    let second = (due_for_observed_memory_check other between first).1 in
    ground (
      arith,
      due,
      ne,
      eq_iff other key,
      eq_iff key key,
      due_of_lookup key granted last_check,
      due_of_lookup key now second,
      last_after key key granted last_check,
      last_after key other between first,
    )
