-- ===== src/Agent/Objects.antt =====
-- The agent's ServiceAccount (reconcileServiceAccount) and Service (reconcileService).
use pulse_operator.Prelude.{String, Option, none, some, [], ◌∷◌, Dict}
use pulse_operator.Api.{OpenShiftPulse}
use pulse_operator.Names.{agent_resource_name}
use pulse_operator.Workload.{AppService, blank_service, http_port}
use pulse_operator.Upsert.{UpsertAnswers, Upserted, write_unless, after_read, create_or_update}

-- A ServiceAccount is its annotations. One that is there is left alone.
unfoldable pub reconcile_agent_service_account :
    UpsertAnswers → Option (Dict String) → Upserted (Dict String)
reconcile_agent_service_account answers stored = elim answers.owner_error [
  | some e ↦ (some e, stored)
  | none ↦
      after_read answers.read_error (write_unless none answers.write_error [] stored)
        (λ old. (none, some old)) stored
]

-- The ServiceMonitor finds the Service by its labels.
unfoldable pub agent_service : OpenShiftPulse → AppService → AppService
agent_service cr old =
    let labels = ("app", agent_resource_name cr.meta.name) ∷ [] in
    record old { labels = labels; selector = labels; ports = http_port "http" 8080 ∷ [] }

unfoldable pub reconcile_agent_service :
    UpsertAnswers → OpenShiftPulse → Option AppService → Upserted AppService
unfolding agent_service
reconcile_agent_service answers cr stored =
    create_or_update answers blank_service (agent_service cr) stored
