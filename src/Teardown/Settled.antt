-- ===== src/Teardown/Settled.antt =====
-- When deleteClusterScopedResources reports no error, nothing of the CR is left behind.
use pulse_operator.Teardown.Calls.{Careful, done, careful_trans}
use Prim.Native.String
use mathlib.Core.List.{◌++◌}
use pulse_operator.Prelude.{
  Bool, true, false, Option, none, some, List, [], ◌∷◌, ◌≡◌, refl, sym, ◌∙◌, inl, inr, Bool-cases,
  arith, All, All-append, String,
}
use pulse_operator.Api.{OpenShiftPulse}
use pulse_operator.Cluster.{
  Error, Stored, get, delete, Log, found, failed, Cluster, M, Got-cases, join_errors,
}
use pulse_operator.Cluster.Removal.{delete_if, delete_stale, is_stamped_by, ignore_not_found}
use pulse_operator.Teardown.{
  Target, target_ref, is_foreign, is_gone, report, collect, for_each, delete_target,
  delete_stale_target, scoped_targets, stale_targets, oauth_targets,
  delete_cluster_scoped_resources,
}
use pulse_operator.Teardown.Laws.{
  stamped_not_foreign, ours, IsStep, delete_target-IsStep, stale_target-IsStep, for_each-Reads,
}

-- A call that succeeded, or that found nothing to act on.
unfoldable pub is_fine : Option Error → Bool
is_fine none = true
is_fine (some e) = is_gone e

append_empty : (xs ys : List Error) → xs ++ ys ≡ [] → (xs ≡ []) × (ys ≡ [])
append_empty [] ys h = (refl, h)
append_empty (x ∷ xs) ys h = ground arith

join_errors-none : (es : List Error) → join_errors es ≡ none → es ≡ []
unfolding join_errors
join_errors-none [] h = refl
join_errors-none (e ∷ []) h = ground arith
join_errors-none (e ∷ (f ∷ es)) h = ground arith

module _ (cluster : Cluster) (pulse : OpenShiftPulse) where
  abbrev Steps : Log → Log → Type 0
  Steps = Careful cluster (ours cluster pulse)

  abbrev after_get : Log → Target → Log
  after_get log t = log ++ get (target_ref t) ∷ []

  -- At some time between the two logs the object was asked for, and was gone, or carried another
  -- stamp than the CR's, or was deleted.
  pub data Settled (from to : Log) (t : Target) : Type 0 where
    absent :
        (log : Log) (e : Error)
        → Steps from log
        → Steps (after_get log t) to
        → cluster.on_get log (target_ref t) ≡ failed e
        → is_gone e ≡ true
        → Settled from to t
    not_ours :
        (log : Log) (s : Stored)
        → Steps from log
        → Steps (after_get log t) to
        → cluster.on_get log (target_ref t) ≡ found s
        → is_stamped_by s pulse ≡ false
        → Settled from to t
    deleted :
        (log : Log)
        → Steps from log
        → Steps (after_get log t ++ delete (target_ref t) ∷ []) to
        → is_fine (cluster.on_write (after_get log t) (delete (target_ref t))) ≡ true
        → Settled from to t

  widen : (a b c d : Log) (t : Target) → Steps a b → Steps c d → Settled b c t → Settled a d t
  widen a b c d t h k (absent log e x y q g) =
      absent log e (careful_trans cluster (ours cluster pulse) a b log h x)
        (careful_trans cluster (ours cluster pulse) _ c d y k) q g
  widen a b c d t h k (not_ours log s x y q g) =
      not_ours log s (careful_trans cluster (ours cluster pulse) a b log h x)
        (careful_trans cluster (ours cluster pulse) _ c d y k) q g
  widen a b c d t h k (deleted log x y g) =
      deleted log (careful_trans cluster (ours cluster pulse) a b log h x)
        (careful_trans cluster (ours cluster pulse) _ c d y k) g

  widen-All :
      (a b c d : Log) (ts : List Target)
      → Steps a b
      → Steps c d
      → All (Settled b c) ts
      → All (Settled a d) ts
  widen-All a b c d [] h k s = tt
  widen-All a b c d (t ∷ ts) h k (s, rest) = (widen a b c d t h k s, widen-All a b c d ts h k rest)

  abbrev Settles : (Target → M (List Error)) → Type 0
  Settles step = (t : Target) (log : Log) → (step t log).0 ≡ [] → Settled log (step t log).1 t

  report-fine : (text : String) (e : Option Error) → report text e ≡ [] → is_fine e ≡ true
  unfolding report is_fine
  report-fine text none h = refl
  report-fine text (some e) h = ground arith

  foreign_not_stamped : (s : Stored) → is_foreign pulse s ≡ true → is_stamped_by s pulse ≡ false
  foreign_not_stamped s h = ground (arith, stamped_not_foreign pulse s)

  abbrev get_text : Target → String
  get_text t = Prim.Native.String.◌++◌ "get " t.desc

  abbrev delete_text : Target → String
  delete_text t = Prim.Native.String.◌++◌ "delete " t.desc

  abbrev stale_text : Target → String
  stale_text t = Prim.Native.String.◌++◌ "delete stale unqualified " t.desc

  delete_target-Settles : Settles (delete_target cluster pulse)
  unfolding delete_target is_fine
  delete_target-Settles t log h = elim (Got-cases (cluster.on_get log (target_ref t))) [
    | inl (e, q) ↦
        absent log e done (rw q done) q (report-fine (get_text t) (some e) (sym (rw q refl) ∙ h))
    | inr (s, q) ↦ elim (Bool-cases (is_foreign pulse s)) [
      | inl f ↦ not_ours log s done (rw (q, f) done) q (foreign_not_stamped s f)
      | inr f ↦
          deleted log done (rw (q, f) done)
            (report-fine (delete_text t) _ (sym (rw (q, f) refl) ∙ h))
    ]
  ]

  stale_fine :
      (text : String) (e : Option Error) → collect text (ignore_not_found e) ≡ [] → is_fine e ≡ true
  unfolding collect ignore_not_found is_fine is_gone
  stale_fine text none h = refl
  stale_fine text (some e) h = ground arith

  stale_target-Settles : Settles (delete_stale_target cluster pulse)
  unfolding delete_stale_target delete_stale delete_if is_fine
  stale_target-Settles t log h = elim (Got-cases (cluster.on_get log (target_ref t))) [
    | inl (e, q) ↦
        absent log e done (rw q done) q (stale_fine (stale_text t) (some e) (sym (rw q refl) ∙ h))
    | inr (s, q) ↦ elim (Bool-cases (is_stamped_by s pulse)) [
      | inl f ↦
          deleted log done (rw (q, f) done) (stale_fine (stale_text t) _ (sym (rw (q, f) refl) ∙ h))
      | inr f ↦ not_ours log s done (rw (q, f) done) q f
    ]
  ]

  for_each-Settled :
      (step : Target → M (List Error)) (ts : List Target) (log : Log)
      → IsStep cluster pulse step
      → Settles step
      → (for_each step ts log).0 ≡ []
      → All (Settled log (for_each step ts log).1) ts
  unfolding for_each
  for_each-Settled step [] log careful h e = tt
  for_each-Settled step (t ∷ ts) log careful h e =
      let m = (step t log).1 in
      let final = (for_each step ts m).1 in
      let parts = append_empty (step t log).0 (for_each step ts m).0 e in
      (
        widen log log m final t done (for_each-Reads cluster pulse step ts careful m).0
            (h t log parts.0),
        widen-All log m final final ts (careful t log).0 done
            (for_each-Settled step ts m careful h parts.1),
      )

  -- If no error is reported, then during the run every object on the three lists was gone, or did
  -- not carry the CR's stamp, or was deleted: nothing that this CR has stamped is left.
  pub delete_cluster_scoped_resources-Settled :
      (log : Log)
      → (delete_cluster_scoped_resources cluster pulse log).0 ≡ none
      → All
          (Settled log (delete_cluster_scoped_resources cluster pulse log).1)
          (scoped_targets pulse ++ (stale_targets pulse ++ oauth_targets pulse))
  unfolding delete_cluster_scoped_resources
  delete_cluster_scoped_resources-Settled log h =
      let step = delete_target cluster pulse in
      let careful = delete_target-IsStep cluster pulse in
      let stale = delete_stale_target cluster pulse in
      let stale_careful = stale_target-IsStep cluster pulse in
      let m = (for_each step (scoped_targets pulse) log).1 in
      let n = (for_each stale (stale_targets pulse) m).1 in
      let final = (for_each step (oauth_targets pulse) n).1 in
      let to_m = (for_each-Reads cluster pulse step (scoped_targets pulse) careful log).0 in
      let to_n = (for_each-Reads cluster pulse stale (stale_targets pulse) stale_careful m).0 in
      let to_final = (for_each-Reads cluster pulse step (oauth_targets pulse) careful n).0 in
      let trans = careful_trans cluster (ours cluster pulse) in
      let outer = append_empty _ _ (join_errors-none _ h) in
      let inner = append_empty _ _ outer.1 in
      All-append (Settled log final) (scoped_targets pulse) _
        (widen-All log log m final (scoped_targets pulse) done (trans m n final to_n to_final)
          (for_each-Settled step (scoped_targets pulse) log careful delete_target-Settles outer.0))
        (All-append (Settled log final) (stale_targets pulse) _
          (widen-All log m n final (stale_targets pulse) to_m to_final (
            for_each-Settled stale (stale_targets pulse) m stale_careful stale_target-Settles
              inner.0))
          (widen-All log n final final (oauth_targets pulse) (trans log m n to_m to_n) done
            (for_each-Settled step (oauth_targets pulse) n careful delete_target-Settles inner.1)))
