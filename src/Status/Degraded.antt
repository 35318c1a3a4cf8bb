-- ===== src/Status/Degraded.antt =====
-- How long a component that is down is reported as Degraded.
use pulse_operator.Prelude.{false, ◌&&◌, List, [], ◌∷◌, ◌≡◌, ◌⊎◌, inl, inr, ◌∙◌, arith}
use pulse_operator.Api.{installing, running, degraded, OpenShiftPulse}
use pulse_operator.Host.{Host}
use pulse_operator.Status.Sync.{sync_phase_and_conditions}
use pulse_operator.Status.Pass.{Observed, observe, status_pass}
use pulse_operator.Status.PassLaws.{synced, outcome, pass_frame}
use pulse_operator.Status.Passes.{run}

-- A component is down in every pass, and in none an upgrade is in progress.
abbrev pub StaysDown : Host → List Observed → OpenShiftPulse → Type 0
StaysDown host [] cr = Unit
StaysDown host (seen ∷ rest) cr =
    ((seen.health.agent_serving && (seen.health.pg_ready && seen.ui_available)) ≡ false)
    × ((synced host seen cr).agent_upgrading ≡ false)
    × ((synced host seen cr).ui_upgrading ≡ false)
    × StaysDown host rest (status_pass host seen cr).cr

module _ (host : Host) (seen : Observed) (cr : OpenShiftPulse)
    (down : (seen.health.agent_serving && (seen.health.pg_ready && seen.ui_available)) ≡ false)
    (agent : (synced host seen cr).agent_upgrading ≡ false)
    (ui : (synced host seen cr).ui_upgrading ≡ false) where
  from_running : cr.status.phase ≡ running → (outcome host seen cr).cr.status.phase ≡ degraded
  unfolding sync_phase_and_conditions observe
  from_running was = (pass_frame host seen cr).1 ∙ ground (arith, was, down, agent, ui)

  from_down :
      (cr.status.phase ≡ degraded) ⊎ (cr.status.phase ≡ installing)
      → (outcome host seen cr).cr.status.phase ≡ installing
  unfolding sync_phase_and_conditions observe
  from_down was = (pass_frame host seen cr).1 ∙ ground (arith, was, down, agent, ui)

stays_installing :
    (host : Host) (rest : List Observed) (cr : OpenShiftPulse)
    → cr.status.phase ≡ installing
    → StaysDown host rest cr
    → (run host rest cr).status.phase ≡ installing
unfolding run
stays_installing host [] cr was down = was
stays_installing host (seen ∷ rest) cr was down =
    stays_installing host rest (status_pass host seen cr).cr
      (from_down host seen cr down.0 down.1 down.2 (inr was)) down.3

-- A CR that was Running is Degraded after the first pass that finds a component down, and Installing
-- after the second and every later one, however long the component stays down, if no upgrade is in
-- progress in any of these passes.
pub degraded_lasts_one_pass :
    (host : Host) (first second : Observed) (rest : List Observed) (cr : OpenShiftPulse)
    → cr.status.phase ≡ running
    → StaysDown host (first ∷ (second ∷ rest)) cr
    → ((run host (first ∷ []) cr).status.phase ≡ degraded)
      × ((run host (first ∷ (second ∷ rest)) cr).status.phase ≡ installing)
unfolding run
degraded_lasts_one_pass host first second rest cr was down =
    let seen_down = from_running host first cr down.0 down.1 down.2 was in
    let (down_again, agent, ui, later) = down.3 in
    let next = (status_pass host first cr).cr in
    (
      seen_down,
      stays_installing host rest (status_pass host second next).cr
          (from_down host second next down_again agent ui (inl seen_down)) later,
    )
