-- ===== src/Tests/ClusterTests.antt =====
-- Witnesses for what the deletion of a CR does, and for admission.
use mathlib.Core.List.{Memᴰ}
use pulse_operator.Prelude.{text_le, inl, inr, none, [], ◌∷◌, ◌≡◌, ◌↔◌, refl, arith}
use pulse_operator.Api.{OpenShiftPulse}
use pulse_operator.Cluster.{Cluster, found}
use pulse_operator.Teardown.{delete_cluster_scoped_resources}
use pulse_operator.Teardown.Calls.{Careful}
use pulse_operator.Teardown.Laws.{ours, delete_cluster_scoped_resources-Careful}
use pulse_operator.Admission.{live, rejection_reason, pulse_namespace}
use pulse_operator.Admission.Laws.{accepted_iff_IsOldest}
use pulse_operator.Tests.Sample.{cr, meta, host}

-- Every object exists and carries the sample's stamp; every write succeeds.
abbrev stamped : Cluster
stamped = record {
  on_get = λ log ref.
      found (record { annotations = ("pulse.ai/owner-uid", "u1") ∷ []; controller = none });
  on_write = λ log call. none;
}

delete_cluster_scoped_resources-Careful_example :
    Careful stamped (ours stamped cr) [] (delete_cluster_scoped_resources stamped cr []).1
delete_cluster_scoped_resources-Careful_example =
    delete_cluster_scoped_resources-Careful stamped cr []

abbrev second : OpenShiftPulse
second = record cr { meta = record meta { name = "later"; uid = "u2"; created = 9 } }

-- Created when the sample was; the name decides.
abbrev twin : OpenShiftPulse
twin = record cr { meta = record meta { name = "zz"; uid = "u3" } }

accepted_iff_IsOldest_example :
    (rejection_reason host.getenv twin (found (second ∷ (twin ∷ (cr ∷ [])))) ≡ found none)
    ↔ (cr.meta.uid ≡ twin.meta.uid)
unfolding live pulse_namespace text_le
accepted_iff_IsOldest_example =
    accepted_iff_IsOldest host.getenv (second ∷ (twin ∷ (cr ∷ []))) cr (omega arith)
      (Memᴰ.tail (Memᴰ.tail (Memᴰ.head refl)))
      (inr (inl (omega arith)), (inr (inr (refl, refl)), (inl refl, tt))) twin refl
