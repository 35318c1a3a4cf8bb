-- ===== src/Lib.antt =====
-- The pulse operator: a Kubernetes controller that runs one OpenShiftPulse stack (agent, UI,
-- database) per cluster. The model is of internal/controller and of the types in api/v1alpha1.
--
-- A reconcile reads a CR, changes cluster objects through the Kubernetes API, and writes the CR's
-- status. The model takes the API as a parameter: what a call answers is any function of the calls
-- before it (Cluster.antt), so a theorem holds whatever the cluster and its other users do between
-- two calls. Where only an answer matters (the Deployments seen by a status pass, the listed CRs or
-- pods), it is an argument.
--
-- - Api.antt (api/v1alpha1/types.go): the CR, its spec and its status.
-- - Host.antt (events.go): the environment, the event recorder, and the API machinery's condition
--   list, a record of operations with their documented law.
-- - Image.antt (images.go, requestedImage, resolvedImage and applyRollback of agent_reconciler.go
--   and ui_reconciler.go; imageTag of skew.go; imageVersionLabel of openshiftpulse_controller.go).
-- - Skew.antt (skew.go), Compat.antt (compat.go; the order of versions is a parameter).
-- - Pods.antt (deployment_selfheal.go), Rollout.antt (isDeploymentReady, isRolledOut of
--   openshiftpulse_controller.go).
-- - Status.antt: Status/Sync and Status/Rollback are syncPhaseAndConditions and
--   reconcileAutoRollback of status.go, cut into one definition per assignment and composed in the
--   source's order; Status/Pass is the status part of Reconcile (openshiftpulse_controller.go), and
--   Status/Passes runs it on any sequence of observations.
-- - Cluster.antt: the API; Cluster/Removal is remove_helpers.go and
--   deleteStaleUnqualifiedClusterScopedResource of agent_reconciler.go.
-- - Teardown.antt: deleteClusterScopedResources, deletePGDataOnRequest (postgresql_reconciler.go)
--   and the deletion branch of Reconcile. Teardown/Calls is a step relation on the log of calls.
-- - Admission.antt (admission.go), with the gate on, as it is outside the tests.
-- - Names.antt, Features.antt: the names of the objects and the tests on the spec.
-- - Rbac.antt: the rules of the three ClusterRoles (agent_reconciler.go, ui_reconciler.go,
--   mcp_reconciler.go) and what they grant. Rbac/Bindings: the writes of these roles and of their
--   bindings.
-- - HelmRunner.antt (helm_runner.go): the accepted images and the UI's /config.js.
-- - Postgres.antt (postgresql_reconciler.go): Postgres/Secret is reconcilePGSecret,
--   Postgres/Version pgMajorVersion and guardPGMajorVersion, Postgres/StalePod
--   deletePendingPGPodIfStale, Postgres/Template and Postgres/StatefulSet
--   reconcilePGStatefulSet, Postgres/Volume expandPGVolume, Postgres/Password generatePassword,
--   Postgres/Service reconcilePGService and
--   reconcilePGStartScripts, and Postgres/Connection reconcilePostgres
--   with the connection Secret. How the API server fills in a stored template is a parameter that
--   keeps what the operator compares.
--   Postgres/Hash is hashSecretData.
-- - Workload.antt: the parts of Deployments, Services and pod templates, and secctx.go.
-- - Upsert.antt: how an object is written: controllerutil.CreateOrUpdate, by its documentation, and
--   the same by hand. It takes what the calls answer and gives the error and the object that there is
--   afterwards. Settled.antt: for the objects that are written this way, a second pass changes nothing.
-- - Agent.antt (agent_reconciler.go): Agent/Environment and Agent/Template are buildDeploymentSpec,
--   Agent/Deployment reconcileDeployment, Agent/Sequence reconcileAgent of
--   openshiftpulse_controller.go with the token Secret and the memory claim, Agent/Objects the account
--   and the Service. Agent/Refinement is what the passes over the Deployment promise, as a machine on
--   three kinds of state, and Agent/Runs runs of passes.
-- - Ui.antt (ui_reconciler.go): Ui/Cookie and Ui/Secrets are the OAuth secrets, Ui/Route
--   reconcileUIRoute and reconcileOAuthClient, Ui/Sequence reconcileUI, Ui/Template the pod template
--   of reconcileUIDeployment, Ui/Nginx reconcileUINginxConfigMap, Ui/Objects the account, the CA bundle
--   and the Service.
-- - Mcp.antt (mcp_reconciler.go): Mcp/Config is buildMCPConfigTOML, Mcp/Server the account, the
--   ConfigMap, the Deployment and the Service, Mcp/Sequence reconcileMCP.
-- - Temporal.antt (temporal_reconciler.go), Render.antt (render_reconciler.go) and Monitoring.antt
--   (monitoring_reconciler.go): the objects of these services and the order in which they are written.
-- - Endpoints.antt: the Services and the ServiceMonitor against the pods of the Deployments.
-- - Network.antt: what network policies let through, by the documentation of their API;
--   Network/Policies are the six policies of network_policy_reconciler.go, mcp_reconciler.go,
--   temporal_reconciler.go and render_reconciler.go. Policies add up, so policies that others write
--   in the namespace can only let more through: the theorems are about the CR's own.
-- - Disabled.antt: removeMCP (mcp_reconciler.go), removeTemporal (temporal_reconciler.go),
--   removeRender (render_reconciler.go) and the disruption budget (pdb_reconciler.go).
-- - Detection.antt (cluster_detect.go): the detection and its cache, over any run of calls.
-- - Metrics.antt (resource_metrics.go): the throttle of the memory checks; Metrics/PodMemory the
--   reading of the pods' samples and reconcileObservedMemoryMetrics.
-- - Reconcile.antt: the order of the sub-reconcilers and the early returns of Reconcile
--   (openshiftpulse_controller.go); their answers are a parameter.
-- - Entry.antt: Reconcile (openshiftpulse_controller.go) from its first line to its last, composed of
--   the deletion branch, admission, Reconcile.antt and Status/Pass. Entry/Laws is about two passes.
-- - Tests.antt: concrete inputs, and each theorem below applied to one.
--
-- Times are nanoseconds and never negative; an interval that would be negative in Go is 0 here, and
-- every test of the source on one answers the same. There is no fuel: every loop is over a list.
-- Where a step is one read and one write of an object of the operator's own, the answers to the calls
-- are arguments, and the object before the pass is an argument and after it a result.
-- Not modelled: the text of events and logs, the counters of errors, the registration of the metrics,
-- generated code and the start of the manager.
mod Prelude
pub mod Upsert
pub mod Mcp
pub mod Temporal
pub mod Endpoints
pub mod Settled
pub mod Render
pub mod Monitoring
pub mod Api
pub mod Host
pub mod Image
pub mod Skew
pub mod HelmRunner
pub mod Postgres
pub mod Metrics
pub mod Reconcile
pub mod Entry
pub mod Compat
pub mod Pods
pub mod Rollout
pub mod Cluster
pub mod Names
pub mod Network
pub mod Disabled
pub mod Detection
pub mod Workload
pub mod Agent
pub mod Ui
pub mod Features
pub mod Rbac
pub mod Teardown
pub mod Admission
pub mod Status
mod Tests
