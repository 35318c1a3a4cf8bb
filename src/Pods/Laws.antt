-- ===== src/Pods/Laws.antt =====
-- What diagnosePod reports, and what keepRestartedAt keeps.
use mathlib.Core.List.{◌++◌}
use pulse_operator.Prelude.{
  not, ◌&&◌, ◌||◌, any, Bool-cases, String, Bool, false, none, some, List, [], ◌∷◌, ◌==◌, ◌≡◌, inl,
  inr, refl, arith, eq_iff, Dict, lookup, lookup-insert, if◌then◌else◌, Option-cases, is_some,
}
use pulse_operator.Pods.{
  Format, ContainerStatus, Pod, PodCondition, is_problem_reason, container_problem,
  first_container_problem, scheduling_problem, diagnose_pod, diagnose_pods, restarted_at_annotation,
  keep_restarted_at,
}

-- `oc rollout restart` survives the rewrite of a pod template: the annotation of the running
-- template wins, and no other annotation changes.
pub lookup-keep_restarted_at :
    (previous desired : Dict String) (key : String)
    → lookup key (keep_restarted_at previous desired) ≡ (
        if restarted_at_annotation == key && is_some (lookup key previous)
        then lookup key previous
        else lookup key desired)
unfolding keep_restarted_at
lookup-keep_restarted_at previous desired key =
    elim (Option-cases (lookup restarted_at_annotation previous)) [
      | inl missing ↦
          rw (missing, keep_restarted_at)
            (ground (arith, missing, eq_iff restarted_at_annotation key))
      | inr (v, found) ↦
          rw (found, keep_restarted_at)
            (rw (lookup-insert restarted_at_annotation key v desired)
              (ground (arith, found, eq_iff restarted_at_annotation key)))
    ]

-- A container that waits for a reason of the list.
abbrev pub is_stuck_container : ContainerStatus → Bool
is_stuck_container cs = elim cs.waiting [ none ↦ false | some w ↦ is_problem_reason w.reason ]

abbrev pub cannot_schedule : PodCondition → Bool
cannot_schedule c = c.type == "PodScheduled" && (c.is_false && c.reason == "Unschedulable")

-- A pod that waits on a problem, or cannot be scheduled, said without the loops.
abbrev pub is_stuck : Pod → Bool
is_stuck pod =
    any is_stuck_container (pod.init_statuses ++ pod.statuses) || any cannot_schedule pod.conditions

module _ (format : Format) where
  is_some-container_problem :
      (pod : Pod) (cs : ContainerStatus)
      → is_some (container_problem format pod cs) ≡ is_stuck_container cs
  unfolding container_problem
  is_some-container_problem pod cs = elim (Option-cases cs.waiting) [
    | inl n ↦ rw (n, container_problem)
    | inr (w, e) ↦ elim (Bool-cases (is_problem_reason w.reason)) [
      | inl h ↦ rw (e, container_problem) (rw h)
      | inr h ↦ rw (e, container_problem) (rw h)
    ]
  ]

  is_some-first_container_problem :
      (pod : Pod) (css : List ContainerStatus)
      → is_some (first_container_problem format pod css) ≡ any is_stuck_container css
  unfolding first_container_problem
  is_some-first_container_problem pod [] = refl
  is_some-first_container_problem pod (cs ∷ css) =
      ground (arith, is_some-container_problem pod cs, is_some-first_container_problem pod css)

  is_some-scheduling_problem :
      (pod : Pod) (cs : List PodCondition)
      → is_some (scheduling_problem format pod cs) ≡ any cannot_schedule cs
  unfolding scheduling_problem
  is_some-scheduling_problem pod [] = refl
  is_some-scheduling_problem pod (c ∷ cs) = elim (Bool-cases (cannot_schedule c)) [
    | inl h ↦ rw h
    | inr h ↦ rw h (is_some-scheduling_problem pod cs)
  ]

  pub is_some-diagnose_pod : (pod : Pod) → is_some (diagnose_pod format pod) ≡ is_stuck pod
  unfolding diagnose_pod
  is_some-diagnose_pod pod = ground (
    arith,
    is_some-first_container_problem pod (pod.init_statuses ++ pod.statuses),
    is_some-scheduling_problem pod pod.conditions,
  )

  -- The pods of a Deployment are reported exactly when some pod that is not being deleted is stuck:
  -- it waits for a listed reason, or it cannot be scheduled. Ordinary startup is never reported.
  pub is_some-diagnose_pods :
      (pods : List Pod)
      → is_some (diagnose_pods format pods)
        ≡ any (λ pod. not (is_some pod.deleted) && is_stuck pod) pods
  unfolding diagnose_pods
  is_some-diagnose_pods [] = refl
  is_some-diagnose_pods (pod ∷ pods) =
      ground (arith, is_some-diagnose_pod pod, is_some-diagnose_pods pods)
