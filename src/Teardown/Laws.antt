-- ===== src/Teardown/Laws.antt =====
-- What deleteClusterScopedResources does to the cluster, whatever the cluster answers.
use mathlib.Core.List.{◌++◌, map, append-nil, append_assoc}
use pulse_operator.Prelude.{
  Bool, true, false, not, List, [], ◌∷◌, ◌≡◌, sym, ap, ◌∙◌, inl, inr, Bool-cases, arith, eq_iff,
  text_at,
}
use pulse_operator.Api.{OpenShiftPulse}
use pulse_operator.Cluster.{Error, Stored, Ref, Log, Cluster, M, Got-cases, return, ◌>>=◌, ◌>>◌}
use pulse_operator.Cluster.Removal.{delete_if, delete_stale, is_stamped_by, annotation_owner_uid}
use pulse_operator.Teardown.{
  Target, is_foreign, for_each, delete_target, delete_stale_target, scoped_targets, stale_targets,
  oauth_targets, delete_cluster_scoped_resources, target_ref,
}
use pulse_operator.Teardown.Calls.{
  gets, Careful, done, asked, removed, careful_trans, gets-read, gets-removed,
}

pub stamped_not_foreign :
    (pulse : OpenShiftPulse) (s : Stored)
    → is_stamped_by s pulse ≡ true
    → is_foreign pulse s ≡ false
unfolding is_stamped_by is_foreign
stamped_not_foreign pulse s h =
    ground (arith, eq_iff (text_at annotation_owner_uid s.annotations) pulse.meta.uid)

module _ (cluster : Cluster) (pulse : OpenShiftPulse) where
  abbrev pub ours : Stored → Bool
  ours s = not (is_foreign pulse s)

  -- A program whose calls are careful, and that reads the given objects in order.
  abbrev pub Reads : {A : Type 0} → M A → List Ref → Type 0
  Reads m refs =
      (log : Log) → Careful cluster ours log (m log).1 × (gets (m log).1 ≡ gets log ++ refs)

  abbrev pub IsStep : (Target → M (List Error)) → Type 0
  IsStep step = (t : Target) → Reads (step t) (target_ref t ∷ [])

  Reads-bind :
      {A B : Type 0} (m : M A) (f : A → M B) (rs ss : List Ref)
      → Reads m rs
      → ((a : A) → Reads (f a) ss)
      → Reads (m >>= f) (rs ++ ss)
  Reads-bind m f rs ss h k log =
      let one = h log in
      let two = k (m log).0 (m log).1 in
      (
        careful_trans cluster ours log (m log).1 _ one.0 two.0,
        two.1 ∙ (ap (λ l. l ++ ss) one.1 ∙ append_assoc (gets log) rs ss),
      )

  Reads-then :
      {A B : Type 0} (m : M A) (k : M B) (rs ss : List Ref)
      → Reads m rs
      → Reads k ss
      → Reads (m >> k) (rs ++ ss)
  Reads-then m k rs ss h l = Reads-bind m (λ a. k) rs ss h (λ a. l)

  Reads-return : {A : Type 0} (a : A) → Reads (return a) []
  Reads-return a log = (done, sym (append-nil (gets log)))

  pub delete_target-IsStep : IsStep (delete_target cluster pulse)
  unfolding delete_target
  delete_target-IsStep t log = elim (Got-cases (cluster.on_get log (target_ref t))) [
    | inl (e, q) ↦ rw q (asked log (target_ref t) done, gets-read log (target_ref t))
    | inr (s, q) ↦ elim (Bool-cases (is_foreign pulse s)) [
      | inl f ↦ rw (q, f) (asked log (target_ref t) done, gets-read log (target_ref t))
      | inr f ↦
          rw (q, f)
            (removed log (target_ref t) s done q (ap not f), gets-removed log (target_ref t))
    ]
  ]

  pub for_each-Reads :
      (step : Target → M (List Error)) (ts : List Target)
      → IsStep step
      → Reads (for_each step ts) (map target_ref ts)
  unfolding for_each
  for_each-Reads step [] h = Reads-return {A = List Error} []
  for_each-Reads step (t ∷ ts) h =
      let next : List Error → M (List Error) =
        λ errs. for_each step ts >>= λ rest. return (errs ++ rest) in
      Reads-bind (step t) next (target_ref t ∷ []) (map target_ref ts) (h t)
        (λ errs log. for_each-Reads step ts h log)

  pub stale_target-IsStep : IsStep (delete_stale_target cluster pulse)
  unfolding delete_stale_target delete_stale delete_if
  stale_target-IsStep t log = elim (Got-cases (cluster.on_get log (target_ref t))) [
    | inl (e, q) ↦ rw q (asked log (target_ref t) done, gets-read log (target_ref t))
    | inr (s, q) ↦ elim (Bool-cases (is_stamped_by s pulse)) [
      | inl f ↦
          rw (q, f)
            (
              removed log (target_ref t) s done q (ap not (stamped_not_foreign pulse s f)),
              gets-removed log (target_ref t),
            )
      | inr f ↦ rw (q, f) (asked log (target_ref t) done, gets-read log (target_ref t))
    ]
  ]

  delete_cluster_scoped_resources-Reads : Reads (delete_cluster_scoped_resources cluster pulse) (
      map target_ref (scoped_targets pulse)
      ++ (map target_ref (stale_targets pulse) ++ map target_ref (oauth_targets pulse)))
  unfolding delete_cluster_scoped_resources
  delete_cluster_scoped_resources-Reads log =
      let scoped = for_each-Reads _ (scoped_targets pulse) delete_target-IsStep in
      let stale = for_each-Reads _ (stale_targets pulse) stale_target-IsStep in
      let oauth = for_each-Reads _ (oauth_targets pulse) delete_target-IsStep in
      let run_scoped = for_each (delete_target cluster pulse) (scoped_targets pulse) in
      let run_stale = for_each (delete_stale_target cluster pulse) (stale_targets pulse) in
      let run_oauth = for_each (delete_target cluster pulse) (oauth_targets pulse) in
      Reads-then run_scoped (run_stale >> run_oauth) (map target_ref (scoped_targets pulse)) _
        scoped (Reads-then run_stale run_oauth (map target_ref (stale_targets pulse)) _ stale oauth)
        log

  -- Every object on the list is asked for once and in order, whatever fails on the way.
  pub gets-delete_cluster_scoped_resources :
      (log : Log)
      → gets (delete_cluster_scoped_resources cluster pulse log).1
        ≡ gets log
          ++ (map target_ref (scoped_targets pulse)
              ++ (map target_ref (stale_targets pulse) ++ map target_ref (oauth_targets pulse)))
  unfolding delete_cluster_scoped_resources
  gets-delete_cluster_scoped_resources log = (delete_cluster_scoped_resources-Reads log).1

  -- Only objects that no other CR has stamped are deleted, each right after a read that shows so.
  pub delete_cluster_scoped_resources-Careful :
      (log : Log) → Careful cluster ours log (delete_cluster_scoped_resources cluster pulse log).1
  unfolding delete_cluster_scoped_resources
  delete_cluster_scoped_resources-Careful log = (delete_cluster_scoped_resources-Reads log).0
