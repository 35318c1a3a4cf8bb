-- ===== src/Pods.antt =====
-- deployment_selfheal.go: why a pod is not becoming ready, and the restart annotation that an
-- update of a pod template keeps.
pub mod Laws
use Prim.Native.String.{◌++◌, len, slice}
use mathlib.Core.List.{◌++◌ as append}
use pulse_operator.Prelude.{
  ℕ, ◌-◌, String, Bool, true, false, not, ◌&&◌, Option, none, some, List, [], ◌∷◌, ◌==◌, leb, Dict,
  lookup, insert, any, if◌then◌else◌, is_some,
}

-- `strings.TrimSpace`, and `%d` of an exit code.
pub record Format : Type 0 where
  pub trim_space : String → String
  pub itoa : ℕ → String

pub record Waiting : Type 0 where
  pub reason : String
  pub message : String

pub record Terminated : Type 0 where
  pub exit_code : ℕ
  pub reason : String
  pub message : String

-- corev1.ContainerStatus: the waiting state, and the last terminated state.
pub record ContainerStatus : Type 0 where
  pub name : String
  pub waiting : Option Waiting
  pub last_terminated : Option Terminated

pub record PodCondition : Type 0 where
  pub type : String
  pub is_false : Bool
  pub reason : String
  pub message : String

pub record Pod : Type 0 where
  pub name : String
  pub deleted : Option ℕ
  pub init_statuses : List ContainerStatus
  pub statuses : List ContainerStatus
  pub conditions : List PodCondition

pub record PodProblem : Type 0 where
  pub pod : String
  pub reason : String
  pub message : String

unfoldable pub problem_text : PodProblem → String
problem_text p =
    if p.message == ""
    then "pod " ++ (p.pod ++ (": " ++ p.reason))
    else "pod " ++ (p.pod ++ (": " ++ (p.reason ++ (": " ++ p.message))))

-- problemWaitingReasons
abbrev pub problem_waiting_reasons : List String
problem_waiting_reasons =
    "ImagePullBackOff" ∷ "ErrImagePull" ∷ "InvalidImageName" ∷ "CrashLoopBackOff"
    ∷ "CreateContainerConfigError" ∷ "CreateContainerError" ∷ "RunContainerError" ∷ []

unfoldable pub is_problem_reason : String → Bool
is_problem_reason reason = any (λ r. r == reason) problem_waiting_reasons

-- Lengths are in bytes. Where Go would cut a character in two and keep its first bytes, the
-- character is left out here.
unfoldable pub truncate : String → ℕ → String
truncate s n = if leb (len s) n then s else slice s 0 (n - 1) ++ "…"

module _ (format : Format) where
  open format use {trim_space, itoa}

  unfoldable pub crash_detail : ContainerStatus → Terminated → String
  crash_detail cs t =
      let exited = "container " ++ (cs.name ++ (" exited with code " ++ itoa t.exit_code)) in
      let reasoned = if t.reason == "" then exited else exited ++ (" (" ++ (t.reason ++ ")")) in
      let m = trim_space t.message in if m == "" then reasoned else reasoned ++ (": " ++ m)

  unfoldable pub waiting_message : ContainerStatus → Waiting → String
  unfolding crash_detail
  waiting_message cs w =
      if w.reason == "CrashLoopBackOff"
      then elim cs.last_terminated [ none ↦ trim_space w.message | some t ↦ crash_detail cs t ]
      else trim_space w.message

  -- The problem of one container, if it waits for one of the reasons above.
  unfoldable pub container_problem : Pod → ContainerStatus → Option PodProblem
  unfolding waiting_message is_problem_reason truncate
  container_problem pod cs = elim cs.waiting [
    | none ↦ none
    | some w ↦
        if is_problem_reason w.reason
        then some (record {
          pod = pod.name;
          reason = w.reason;
          message = truncate (waiting_message cs w) 300;
        })
        else none
  ]

  -- The first loop of diagnosePod.
  unfoldable pub first_container_problem : Pod → List ContainerStatus → Option PodProblem
  first_container_problem pod [] = none
  first_container_problem pod (cs ∷ rest) =
      let later = first_container_problem pod rest in
      elim (container_problem pod cs) [ some p ↦ some p | none ↦ later ]

  abbrev is_unschedulable : PodCondition → Bool
  is_unschedulable c = c.type == "PodScheduled" && (c.is_false && c.reason == "Unschedulable")

  -- The second loop.
  unfoldable pub scheduling_problem : Pod → List PodCondition → Option PodProblem
  unfolding truncate
  scheduling_problem pod [] = none
  scheduling_problem pod (c ∷ rest) =
      if is_unschedulable c
      then some (record {
        pod = pod.name;
        reason = "Unschedulable";
        message = truncate (trim_space c.message) 300;
      })
      else scheduling_problem pod rest

  unfoldable pub diagnose_pod : Pod → Option PodProblem
  diagnose_pod pod = elim (first_container_problem pod (append pod.init_statuses pod.statuses)) [
    | some p ↦ some p
    | none ↦ scheduling_problem pod pod.conditions
  ]

  -- The loop of diagnoseDeploymentPods over the listed pods.
  unfoldable pub diagnose_pods : List Pod → Option PodProblem
  diagnose_pods [] = none
  diagnose_pods (pod ∷ rest) =
      let later = diagnose_pods rest in
      if is_some pod.deleted
      then later
      else elim (diagnose_pod pod) [ some p ↦ some p | none ↦ later ]

abbrev pub restarted_at_annotation : String
restarted_at_annotation = "kubectl.kubernetes.io/restartedAt"

-- keepRestartedAt: the desired template's annotations, with the restart mark of the previous ones.
unfoldable pub keep_restarted_at : Dict String → Dict String → Dict String
keep_restarted_at previous desired = elim (lookup restarted_at_annotation previous) [
  | none ↦ desired
  | some v ↦ insert restarted_at_annotation v desired
]
