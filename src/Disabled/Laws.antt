-- ===== src/Disabled/Laws.antt =====
-- What turning a feature off deletes and asks for.
use mathlib.Core.List.{◌++◌, map, append-nil, append_assoc}
use pulse_operator.Prelude.{
  Bool, Option, none, some, List, [], ◌∷◌, ◌≡◌, refl, sym, ap, ◌∙◌, arith, Bool-cases, inl, inr,
  leb, ◌<◌, false,
}
use pulse_operator.Api.{OpenShiftPulse}
use pulse_operator.Cluster.{Error, Ref, Stored, Log, M, Cluster, Got-cases}
use pulse_operator.Cluster.Removal.{
  delete_owned, delete_owned_cluster_scoped, delete_if, is_controlled_by, is_stamped_by, wrap_error,
}
use pulse_operator.Teardown.Calls.{Careful, done, careful_trans, gets, gets-read, gets-removed}
use pulse_operator.Image.Choice.{resolved_ui_replicas}
use pulse_operator.Teardown.Owned.{delete_if-Careful, delete_owned-Careful}
use pulse_operator.Disabled.{
  Target, mcp_targets, mcp_scoped_targets, render_targets, temporal_targets, until_error,
  unless_error, remove_owned, remove_scoped, remove_mcp, remove_temporal, remove_render, remove_pdb,
  budget_of,
}

unless_error-Careful :
    (cluster : Cluster) (mine : Stored → Bool) (err : Option Error) (next : M (Option Error))
    (log : Log)
    → Careful cluster mine log (next log).1
    → Careful cluster mine log (unless_error err next log).1
unfolding unless_error
unless_error-Careful cluster mine (some e) next log h = done
unless_error-Careful cluster mine none next log h = h

until_error-Careful :
    (cluster : Cluster) (mine : Stored → Bool) (remove : Target → M (Option Error))
    (careful : (t : Target) (log : Log) → Careful cluster mine log (remove t log).1)
    (targets : List Target) (log : Log)
    → Careful cluster mine log (until_error remove targets log).1
unfolding until_error
until_error-Careful cluster mine remove careful [] log = done
until_error-Careful cluster mine remove careful (t ∷ rest) log =
    careful_trans cluster mine log (remove t log).1 _ (careful t log) (
      unless_error-Careful cluster mine (remove t log).0 (until_error remove rest) (remove t log).1
        (until_error-Careful cluster mine remove careful rest (remove t log).1))

module _ (cluster : Cluster) (pulse : OpenShiftPulse) where
  owned-Careful :
      (targets : List Target) (log : Log)
      → Careful cluster
          (λ s. is_controlled_by s pulse)
          log
          (until_error (remove_owned cluster pulse) targets log).1
  owned-Careful targets log =
      until_error-Careful cluster (λ s. is_controlled_by s pulse) (remove_owned cluster pulse)
        (λ t l. (delete_owned-Careful cluster t.0 t.1 pulse l).0) targets log

  scoped-Careful :
      (targets : List Target) (log : Log)
      → Careful cluster
          (λ s. is_stamped_by s pulse)
          log
          (until_error (remove_scoped cluster pulse) targets log).1
  scoped-Careful targets log =
      until_error-Careful cluster (λ s. is_stamped_by s pulse) (remove_scoped cluster pulse)
        (λ t l. (delete_owned-Careful cluster t.0 t.1 pulse l).1) targets log

-- Turning a feature off never deletes what the CR does not own: the removal of the MCP server first
-- deletes only after a read that shows the CR's controller reference, and then, of the cluster-scoped
-- objects, only after one that shows its stamp; the removals of Temporal, of the render service and
-- of the disruption budget delete only after a read that shows the controller reference.
pub removals-Careful :
    (cluster : Cluster) (pulse : OpenShiftPulse) (log : Log)
    → ((middle : Log) × Careful cluster (λ s. is_controlled_by s pulse) log middle
        × Careful cluster (λ s. is_stamped_by s pulse) middle (remove_mcp cluster pulse log).1)
      × Careful cluster (λ s. is_controlled_by s pulse) log (remove_temporal cluster pulse log).1
      × Careful cluster (λ s. is_controlled_by s pulse) log (remove_render cluster pulse log).1
      × Careful cluster (λ s. is_controlled_by s pulse) log (remove_pdb cluster pulse log).1
unfolding remove_mcp remove_temporal remove_render remove_pdb
removals-Careful cluster pulse log = (
  (
    (until_error (remove_owned cluster pulse) (mcp_targets pulse) log).1,
    owned-Careful cluster pulse (mcp_targets pulse) log,
    unless_error-Careful cluster (λ s. is_stamped_by s pulse)
        (until_error (remove_owned cluster pulse) (mcp_targets pulse) log).0
        (until_error (remove_scoped cluster pulse) (mcp_scoped_targets pulse))
        (until_error (remove_owned cluster pulse) (mcp_targets pulse) log).1
        (scoped-Careful cluster pulse (mcp_scoped_targets pulse) _),
  ),
  owned-Careful cluster pulse (temporal_targets pulse) log,
  owned-Careful cluster pulse (render_targets pulse) log,
  delete_if-Careful cluster (λ s. is_controlled_by s pulse) (λ e. e) _ log,
)

-- The object of a target in the CR's namespace, or among the cluster-scoped ones.
abbrev pub owned_ref : OpenShiftPulse → Target → Ref
owned_ref pulse (kind, name) = record { kind = kind; namespace = pulse.meta.namespace; name = name }

abbrev pub scoped_ref : Target → Ref
scoped_ref (kind, name) = record { kind = kind; namespace = ""; name = name }

delete_if-gets :
    (cluster : Cluster) (mine : Stored → Bool) (report : Option Error → Option Error) (ref : Ref)
    (log : Log)
    → gets (delete_if cluster mine report ref log).1 ≡ gets log ++ ref ∷ []
unfolding delete_if
delete_if-gets cluster mine report ref log = elim (Got-cases (cluster.on_get log ref)) [
  | inl (e, q) ↦ rw q (gets-read log ref)
  | inr (s, q) ↦ elim (Bool-cases (mine s)) [
    | inl f ↦ rw (q, f) (gets-removed log ref)
    | inr f ↦ rw (q, f) (gets-read log ref)
  ]
]

unless_error-none :
    (err : Option Error) (next : M (Option Error)) (log : Log)
    → (unless_error err next log).0 ≡ none
    → (err ≡ none) × (unless_error err next log ≡ next log)
unfolding unless_error
unless_error-none (some e) next log h = absurd (ground (arith, h))
unless_error-none none next log h = (refl, refl)

until_error-gets :
    (remove : Target → M (Option Error)) (ref : Target → Ref)
    (asks : (t : Target) (log : Log) → gets (remove t log).1 ≡ gets log ++ ref t ∷ [])
    (targets : List Target) (log : Log)
    → (until_error remove targets log).0 ≡ none
    → gets (until_error remove targets log).1 ≡ gets log ++ map ref targets
unfolding until_error
until_error-gets remove ref asks [] log h = sym (append-nil (gets log))
until_error-gets remove ref asks (t ∷ rest) log h =
    let after = (remove t log).1 in
    let (first, same) = unless_error-none (remove t log).0 (until_error remove rest) after h in
    let fine : (until_error remove rest after).0 ≡ none = ap (λ r. r.0) (sym same) ∙ h in
    ap (λ r. gets r.1) same
    ∙ (until_error-gets remove ref asks rest after fine
        ∙ (ap (λ l. l ++ map ref rest) (asks t log)
            ∙ append_assoc (gets log) (ref t ∷ []) (map ref rest)))

-- A removal of the MCP server that ends without an error has asked for every object of the server in
-- the CR's namespace and then for its binding and its cluster role, in this order and once each: none
-- of them is forgotten.
pub mcp_removal_asks_for_all :
    (cluster : Cluster) (pulse : OpenShiftPulse) (log : Log)
    → (remove_mcp cluster pulse log).0 ≡ none
    → gets (remove_mcp cluster pulse log).1
      ≡ (gets log ++ map (owned_ref pulse) (mcp_targets pulse))
        ++ map scoped_ref (mcp_scoped_targets pulse)
unfolding remove_mcp delete_owned delete_owned_cluster_scoped
mcp_removal_asks_for_all cluster pulse log h =
    let first = until_error (remove_owned cluster pulse) (mcp_targets pulse) log in
    let next = until_error (remove_scoped cluster pulse) (mcp_scoped_targets pulse) in
    let (fine, same) = unless_error-none first.0 next first.1 h in
    let rest : (next first.1).0 ≡ none = ap (λ r. r.0) (sym same) ∙ h in
    ap (λ r. gets r.1) same
    ∙ (until_error-gets (remove_scoped cluster pulse) scoped_ref
          (λ t l. delete_if-gets cluster _ (wrap_error "delete") (scoped_ref t) l)
          (mcp_scoped_targets pulse) first.1 rest
        ∙ ap (λ l. l ++ map scoped_ref (mcp_scoped_targets pulse))
            (until_error-gets (remove_owned cluster pulse) (owned_ref pulse)
              (λ t l. delete_if-gets cluster _ (wrap_error "delete") (owned_ref pulse t) l)
              (mcp_targets pulse) log fine))

-- The budget that is written where there are two replicas or more always lets one of them go.
pub budget_lets_one_go :
    (pulse : OpenShiftPulse)
    → leb (resolved_ui_replicas pulse) 1 ≡ false
    → (budget_of pulse).min_available < resolved_ui_replicas pulse
unfolding budget_of
budget_lets_one_go pulse two = ground (arith, two)
