-- ===== src/Agent/Runs.antt =====
-- Any run of passes over the agent's Deployment is a run of the machine of Agent/Refinement.antt.
use pulse_operator.Prelude.{ℕ, String, Bool, false, Option, some, List, [], ◌∷◌, All, ◌≡◌, arith}
use mathlib.Core.Path.{subst}
use pulse_operator.Host.{Host}
use pulse_operator.Names.{agent_resource_name}
use pulse_operator.Compat.{Semver}
use pulse_operator.Workload.{DeploymentSpec}
use pulse_operator.Agent.Refinement.{
  View, serving, view, Step, stay, clear, create, roll_out, fill, Behaves, done, next, Round,
  intent, intents, round_pass, run, pass-Steps,
}

-- With the gate closed throughout, a machine that serves an image goes on to serve it.
closed_machine :
    {plan : List (Bool × String)} {u v : View}
    → Behaves plan u v
    → All (λ p. p.0 ≡ false) plan
    → (image : String) → u ≡ serving (some image)
    → v ≡ serving (some image)
closed_machine (done v) closed image h = h
closed_machine (next (stay v) rest) closed image h = closed_machine rest closed.1 image h
closed_machine (next clear rest) closed image h = absurd (ground (arith, h))
closed_machine (next (create gate) rest) closed image h = absurd (ground (arith, gate, closed.0))
closed_machine (next (roll_out i gate) rest) closed image h =
    absurd (ground (arith, gate, closed.0))
closed_machine (next fill rest) closed image h = absurd (ground (arith, h))

module _ (itoa : ℕ → String) (host : Host) (semver : Semver) where
  -- The passes refine the machine: whatever the calls answer in each pass, but that nothing answers
  -- "not found" for a Deployment that there is, and whatever each pass finds in the CR, a run of
  -- passes over the agent's Deployment of one CR name is a run of the machine, which creates the
  -- Deployment and changes its image only behind an open version gate and only to the image wanted in
  -- that pass, gives a Deployment without containers the wanted one, and removes only a Deployment
  -- with another selector.
  pub run-Behaves :
      (cr_name : String) (rounds : List Round) (stored : Option DeploymentSpec)
      → All (λ r. r.cr.meta.name ≡ cr_name) rounds
      → Behaves
          (intents itoa host semver rounds)
          (view (agent_resource_name cr_name) stored)
          (view (agent_resource_name cr_name) (run itoa host semver rounds stored))
  unfolding run intent
  run-Behaves cr_name [] stored same = done (view (agent_resource_name cr_name) stored)
  run-Behaves cr_name (round ∷ rest) stored same =
      next
        (subst
          (λ n.
            Step (intent itoa host semver round).0 (intent itoa host semver round).1
              (view (agent_resource_name n) stored)
              (view (agent_resource_name n) (round_pass itoa host semver round stored)))
          same.0 (pass-Steps itoa host semver round stored))
        (run-Behaves cr_name rest (round_pass itoa host semver round stored) same.1)

  -- While the version gate stays closed, the image of a Deployment with the agent's selector never
  -- changes, over any run of passes over a CR of one name, whatever the CR asks for in them and
  -- whatever the calls answer, but that nothing answers "not found" for a Deployment that there is.
  pub closed_runs_keep_image :
      (cr_name image : String) (rounds : List Round) (stored : Option DeploymentSpec)
      → All (λ r. r.cr.meta.name ≡ cr_name) rounds
      → All (λ p. p.0 ≡ false) (intents itoa host semver rounds)
      → view (agent_resource_name cr_name) stored ≡ serving (some image)
      → view (agent_resource_name cr_name) (run itoa host semver rounds stored)
        ≡ serving (some image)
  closed_runs_keep_image cr_name image rounds stored same closed serves =
      closed_machine (run-Behaves cr_name rounds stored same) closed image serves
