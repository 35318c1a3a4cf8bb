-- ===== src/Status/Passes.antt =====
-- Many passes over an agent image that never rolls out: the rollback comes, and it stays.
use mathlib.Core.List.{◌++◌}
use pulse_operator.Prelude.{
  ℕ, ◌+◌, ◌≤◌, String, true, false, Option, none, some, ◌≡◌, ◌≢◌, ◌⊎◌, inl, inr, refl, arith,
  eq_iff, List, [], ◌∷◌, ◌∙◌, ap, sym, Bool-cases, All,
}
use pulse_operator.Api.{upgrading, OpenShiftPulse, ImageRollback}
use pulse_operator.Host.{Host, is_condition_false}
use pulse_operator.Image.Choice.{requested_image, resolved_image}
use pulse_operator.Status.Sync.{stamp_upgrade}
use pulse_operator.Status.Rollback.{upgrade_health_timeout, timed_out}
use pulse_operator.Status.Pass.{Observed, status_pass}
use pulse_operator.Status.PassLaws.{
  gate, synced, outcome, IsWaiting, sync_waiting, is_condition_false-congr, pass_frame, pass_early,
  rollback_waiting, requested_image-spec, pass_rolled_back,
}

-- Status passes one after another, with the spec unchanged.
unfoldable pub run : Host → List Observed → OpenShiftPulse → OpenShiftPulse
run host [] cr = cr
run host (seen ∷ rest) cr = run host rest (status_pass host seen cr).cr

-- An upgrade's start, if there is one, lies at `time` or before.
abbrev pub StartedBy : Option ℕ → ℕ → Type 0
StartedBy none time = Unit
StartedBy (some start) time = start ≤ time

abbrev pub NotRolledOut : Observed → Type 0
NotRolledOut seen = seen.health.agent_rolled_out ≡ false

stamp_upgrade-le :
    (now : ℕ) (started : Option ℕ)
    → StartedBy started now
    → (start : ℕ) × (stamp_upgrade true now started ≡ some start) × (start ≤ now)
unfolding stamp_upgrade
stamp_upgrade-le now none le = (now, refl, omega arith)
stamp_upgrade-le now (some start) le = (start, refl, le)

stamp_upgrade-some : (now start : ℕ) → stamp_upgrade true now (some start) ≡ some start
unfolding stamp_upgrade
stamp_upgrade-some now start = refl

timed_out_late :
    (start since now : ℕ)
    → start ≤ since
    → since + upgrade_health_timeout ≤ now
    → timed_out upgrading (some start) now ≡ true
unfolding timed_out
timed_out_late start since now le late = ground arith

module _ (host : Host) (bad good : String) where
  -- The spec asks for `bad`, which is not `good`, the last healthy agent image.
  pub record Asks (cr : OpenShiftPulse) : Type 0 where
    pub asks_bad : requested_image host.getenv cr ≡ bad
    pub good_healthy : cr.status.last_healthy_agent_image ≡ good
    pub good_known : good ≢ ""
    pub differ : bad ≢ good

  -- The upgrade's timer was started at `since` or before, and no rollback is on record.
  pub record Waiting (since : ℕ) (cr : OpenShiftPulse) : Type 0 where
    pub asks : Asks cr
    pub no_record : cr.status.agent_rollback ≡ none
    pub open_gate : is_condition_false host.store cr.status.conditions gate ≡ false
    pub start : ℕ
    pub started : cr.status.upgrade_started_at ≡ some start
    pub early : start ≤ since

  pub record RolledBack (cr : OpenShiftPulse) : Type 0 where
    pub asks : Asks cr
    pub rollback : ImageRollback
    pub recorded : cr.status.agent_rollback ≡ some rollback
    pub from_bad : rollback.from ≡ bad
    pub to_good : rollback.to ≡ good

  Asks-IsWaiting :
      (cr : OpenShiftPulse)
      → Asks cr
      → cr.status.agent_rollback ≡ none
      → is_condition_false host.store cr.status.conditions gate ≡ false
      → IsWaiting host cr
  Asks-IsWaiting cr a n g = record {
    not_rolled_back = n;
    healthy_known = λ e. a.good_known (sym a.good_healthy ∙ e);
    asks_for_other = λ e. a.differ (sym a.asks_bad ∙ e ∙ a.good_healthy);
    gate_open = g;
  }

  module _ (seen : Observed) (cr : OpenShiftPulse) where
    pass-Asks :
        Asks cr
        → (outcome host seen cr).cr.status.last_healthy_agent_image
          ≡ cr.status.last_healthy_agent_image
        → Asks (outcome host seen cr).cr
    pass-Asks a e = record {
      asks_bad =
          requested_image-spec host seen cr (outcome host seen cr).cr (pass_frame host seen cr).0
          ∙ a.asks_bad;
      good_healthy = e ∙ a.good_healthy;
      good_known = a.good_known;
      differ = a.differ;
    }

    -- A recorded rollback outlasts every pass, whatever the pods do.
    RolledBack-pass : RolledBack cr → RolledBack (outcome host seen cr).cr
    RolledBack-pass r =
        let (s1, s2, s3, s4) =
          pass_rolled_back host seen cr r.rollback r.recorded (r.from_bad ∙ sym r.asks.asks_bad)
            (r.to_good ∙ sym r.asks.good_healthy) (λ e. r.asks.good_known (sym r.to_good ∙ e)) in
        record {
          asks = pass-Asks r.asks s4;
          rollback = r.rollback;
          recorded = s3;
          from_bad = r.from_bad;
          to_good = r.to_good;
        }

    module _ (a : Asks cr) (w : IsWaiting host cr) (h : seen.health.agent_rolled_out ≡ false) where
      waiting-Asks : Asks (outcome host seen cr).cr
      waiting-Asks = pass-Asks a ((pass_frame host seen cr).3 ∙ (sync_waiting host seen cr w h).3)

      waiting_late :
          timed_out upgrading (stamp_upgrade true seen.now cr.status.upgrade_started_at) seen.now
            ≡ true
          → RolledBack (outcome host seen cr).cr
      waiting_late late = record {
        asks = waiting-Asks;
        rollback = record {
          from = requested_image host.getenv cr;
          to = cr.status.last_healthy_agent_image;
          at = seen.now;
        };
        recorded = ground (arith, rollback_waiting host seen cr w h, late);
        from_bad = a.asks_bad;
        to_good = a.good_healthy;
      }

      waiting_early :
          (since start : ℕ)
          → stamp_upgrade true seen.now cr.status.upgrade_started_at ≡ some start
          → start ≤ since
          → timed_out upgrading (stamp_upgrade true seen.now cr.status.upgrade_started_at) seen.now
            ≡ false
          → Waiting since (outcome host seen cr).cr
      waiting_early since start e le early = record {
        asks = waiting-Asks;
        no_record = ground (arith, rollback_waiting host seen cr w h, early);
        open_gate =
            is_condition_false-congr host.store _ _ gate (pass_frame host seen cr).4 ∙ w.gate_open;
        start = start;
        started =
            let waiting = sync_waiting host seen cr w h in
            pass_early host seen cr (rw (waiting.1, waiting.5) early) ∙ waiting.5 ∙ e;
        early = le;
      }

      -- The first pass starts the timer, unless it has run out already.
      first_pass :
          StartedBy cr.status.upgrade_started_at seen.now
          → Waiting seen.now (outcome host seen cr).cr ⊎ RolledBack (outcome host seen cr).cr
      first_pass by =
          let (start, e, le) = stamp_upgrade-le seen.now cr.status.upgrade_started_at by in
          elim (Bool-cases (
            timed_out upgrading (stamp_upgrade true seen.now cr.status.upgrade_started_at)
              seen.now)) [
                | inl late ↦ inr (waiting_late late)
                | inr early ↦ inl (waiting_early seen.now start e le early)
              ]

    Waiting-pass :
        {since : ℕ}
        → Waiting since cr
        → NotRolledOut seen
        → Waiting since (outcome host seen cr).cr ⊎ RolledBack (outcome host seen cr).cr
    Waiting-pass {since} w h =
        let e = ap (stamp_upgrade true seen.now) w.started ∙ stamp_upgrade-some seen.now w.start in
        let waits = Asks-IsWaiting cr w.asks w.no_record w.open_gate in
        elim (Bool-cases (
          timed_out upgrading (stamp_upgrade true seen.now cr.status.upgrade_started_at)
            seen.now)) [
              | inl late ↦ inr (waiting_late w.asks waits h late)
              | inr early ↦ inl (waiting_early w.asks waits h since w.start e w.early early)
            ]

    Waiting-late_pass :
        {since : ℕ}
        → Waiting since cr
        → NotRolledOut seen
        → since + upgrade_health_timeout ≤ seen.now
        → RolledBack (outcome host seen cr).cr
    Waiting-late_pass {since} w h late =
        let e = ap (stamp_upgrade true seen.now) w.started ∙ stamp_upgrade-some seen.now w.start in
        waiting_late w.asks (Asks-IsWaiting cr w.asks w.no_record w.open_gate) h (
          ap (λ o. timed_out upgrading o seen.now) e
          ∙ timed_out_late w.start since seen.now w.early late)

  RolledBack-run :
      (seens : List Observed) (cr : OpenShiftPulse) → RolledBack cr → RolledBack (run host seens cr)
  unfolding run
  RolledBack-run [] cr r = r
  RolledBack-run (seen ∷ rest) cr r = RolledBack-run rest _ (RolledBack-pass seen cr r)

  Waiting-run :
      (since : ℕ) (middle : List Observed) (last : Observed) (rest : List Observed)
      (cr : OpenShiftPulse)
      → Waiting since cr ⊎ RolledBack cr
      → All NotRolledOut middle
      → NotRolledOut last
      → since + upgrade_health_timeout ≤ last.now
      → RolledBack (run host (middle ++ last ∷ rest) cr)
  unfolding run
  Waiting-run since middle last rest cr (inr r) hs h late =
      RolledBack-run (middle ++ last ∷ rest) cr r
  Waiting-run since [] last rest cr (inl w) hs h late =
      RolledBack-run rest _ (Waiting-late_pass last cr w h late)
  Waiting-run since (seen ∷ middle) last rest cr (inl w) (h1, hs) h late =
      Waiting-run since middle last rest _ (Waiting-pass seen cr w h1) hs h late

  -- Suppose the spec asks for an agent image that is not the last healthy one, which is known, no
  -- rollback is on record, the version gate is not closed and no upgrade started later than the first pass. If the
  -- agent does not roll out in the first pass, in those up to a pass five minutes later and in that
  -- one, then a rollback from the bad image to the good one is on record after it and after any
  -- number of later passes, whatever those observe.
  pub bad_image-RolledBack :
      (first : Observed) (middle : List Observed) (last : Observed) (rest : List Observed)
      (cr : OpenShiftPulse)
      → Asks cr
      → cr.status.agent_rollback ≡ none
      → is_condition_false host.store cr.status.conditions gate ≡ false
      → StartedBy cr.status.upgrade_started_at first.now
      → All NotRolledOut (first ∷ middle)
      → NotRolledOut last
      → first.now + upgrade_health_timeout ≤ last.now
      → RolledBack (run host (first ∷ (middle ++ last ∷ rest)) cr)
  unfolding run
  bad_image-RolledBack first middle last rest cr a n g by (h1, hs) h late =
      Waiting-run first.now middle last rest _
        (first_pass first cr a (Asks-IsWaiting cr a n g) h1 by) hs h late

  -- Suppose the spec asks for an agent image that is not the last healthy one, which is known, and a
  -- rollback from the one to the other is on record. Then through any number of passes with the same
  -- spec, whatever they observe, the rollback stays on record as it is, the last healthy image stays the
  -- last healthy one and the resolved one, and the agent is not upgrading in a further pass.
  pub one_rollback_per_image :
      (seens : List Observed) (next : Observed) (cr : OpenShiftPulse) (rb : ImageRollback)
      → Asks cr
      → cr.status.agent_rollback ≡ some rb
      → rb.from ≡ bad
      → rb.to ≡ good
      → ((run host seens cr).status.agent_rollback ≡ some rb)
        × ((run host seens cr).status.last_healthy_agent_image ≡ good)
        × (resolved_image host.getenv (run host seens cr) ≡ good)
        × ((synced host next (run host seens cr)).agent_upgrading ≡ false)
  unfolding run resolved_image
  one_rollback_per_image [] next cr rb a e from to = (
    e,
    a.good_healthy,
    ground (arith, a, e, eq_iff rb.from (requested_image host.getenv cr), eq_iff rb.to ""),
    (pass_rolled_back host next cr rb e (from ∙ sym a.asks_bad) (to ∙ sym a.good_healthy)
        (λ none_known. a.good_known (sym to ∙ none_known))).0,
  )
  one_rollback_per_image (seen ∷ rest) next cr rb a e from to =
      let (s1, s2, s3, s4) =
        pass_rolled_back host seen cr rb e (from ∙ sym a.asks_bad) (to ∙ sym a.good_healthy)
          (λ none_known. a.good_known (sym to ∙ none_known)) in
      one_rollback_per_image rest next (outcome host seen cr).cr rb (pass-Asks seen cr a s4) s3 from
        to
