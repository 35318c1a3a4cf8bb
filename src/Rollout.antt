-- ===== src/Rollout.antt =====
-- isDeploymentReady, isRolledOut and isStatefulSetReady of openshiftpulse_controller.go. A `Get`
-- that fails is `none`: every error counts as not ready.
use pulse_operator.Prelude.{
  ℕ, ◌≤◌, ◌<◌, String, Bool, true, false, not, ◌&&◌, Option, none, some, List, [], ◌∷◌, ◌==◌, ltb,
  leb, eqb, if◌then◌else◌, ◌≡◌, ◌↔◌, arith,
}

-- What is read of an appsv1.Deployment: `containers` are the images of its pod template, and an
-- unset `spec.replicas` is `none`.
pub record Deployment : Type 0 where
  pub generation : ℕ
  pub containers : List String
  pub replicas : Option ℕ
  pub observed_generation : ℕ
  pub updated_replicas : ℕ
  pub ready_replicas : ℕ
  pub status_replicas : ℕ

unfoldable pub has_ready_replica : Option Deployment → Bool
has_ready_replica none = false
has_ready_replica (some d) = ltb 0 d.ready_replicas

-- isStatefulSetReady, from the StatefulSet's ready replicas.
unfoldable pub stateful_set_ready : Option ℕ → Bool
stateful_set_ready none = false
stateful_set_ready (some ready) = ltb 0 ready

abbrev pub wanted_replicas : Option ℕ → ℕ
wanted_replicas none = 1
wanted_replicas (some n) = n

abbrev pub runs_image : List String → String → Bool
runs_image [] image = false
runs_image (first ∷ rest) image = first == image

unfoldable pub deployment_rolled_out : Deployment → String → Bool
deployment_rolled_out d image =
    if ltb d.observed_generation d.generation
    then false
    else if not (runs_image d.containers image)
    then false
    else let want = wanted_replicas d.replicas in
      if eqb want 0
      then false
      else leb want d.updated_replicas
        && (leb want d.ready_replicas && eqb d.status_replicas d.updated_replicas)

unfoldable pub is_rolled_out : Option Deployment → String → Bool
unfolding deployment_rolled_out
is_rolled_out none image = false
is_rolled_out (some d) image = deployment_rolled_out d image

-- Rolled out means: the status speaks of the current spec, the first container runs the image, at
-- least one replica is wanted, that many are updated and that many ready, and no pod is of an
-- older revision.
pub deployment_rolled_out_iff :
    (d : Deployment) (image : String)
    → (deployment_rolled_out d image ≡ true) ↔ (
        (d.generation ≤ d.observed_generation)
        × (runs_image d.containers image ≡ true)
        × (0 < wanted_replicas d.replicas)
        × (wanted_replicas d.replicas ≤ d.updated_replicas)
        × (wanted_replicas d.replicas ≤ d.ready_replicas)
        × (d.status_replicas ≡ d.updated_replicas))
unfolding deployment_rolled_out
deployment_rolled_out_iff d image = ground arith
