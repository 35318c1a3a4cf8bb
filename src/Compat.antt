-- ===== src/Compat.antt =====
-- compat.go: the gate of spec.agent.minOperatorVersion against this operator's own version.
use Prim.Native.String.{◌++◌}
use pulse_operator.Prelude.{
  String, Bool, true, false, Option, none, some, ◌==◌, if◌then◌else◌, ◌≡◌, ◌≢◌, ◌↔◌, arith, eq_iff,
  Option-cases, inl, inr,
}
use pulse_operator.Api.{OpenShiftPulse, Condition}
use pulse_operator.Host.{Host}

-- github.com/Masterminds/semver: parsing a version, and its order.
pub record Semver : Type 1 where
  pub Version : Type 0
  pub new_version : String → Option Version
  pub less_than : Version → Version → Bool

abbrev pub operator_version : String
operator_version = "0.13.0"

unfoldable pub incompatible_message : String → String
incompatible_message want =
    "spec.agent.minOperatorVersion="
    ++ (want
        ++ (" requires a pulse-operator build >= "
            ++ (want ++ ("; this operator is running " ++ operator_version))))

module _ (semver : Semver) where
  open semver use {Version, new_version, less_than}

  unfoldable pub agent_version_compatible : OpenShiftPulse → Bool × String
  agent_version_compatible cr =
      let want = cr.spec.agent.min_operator_version in
      if want == "" then (true, "") else elim (new_version want) [
        | none ↦ (true, "")
        | some want_ver ↦ elim (new_version operator_version) [
          | none ↦ (true, "")
          | some have_ver ↦
              if less_than have_ver want_ver then (false, incompatible_message want) else (true, "")
        ]
      ]

  -- The gate closes exactly when a version is asked for, both versions parse, and this operator's
  -- is the lower one.
  pub incompatible_iff :
      (cr : OpenShiftPulse)
      → ((agent_version_compatible cr).0 ≡ false) ↔ (
          (cr.spec.agent.min_operator_version ≢ "")
          × ((want have : Version) × (new_version cr.spec.agent.min_operator_version ≡ some want)
              × (new_version operator_version ≡ some have)
              × (less_than have want ≡ true)))
  unfolding agent_version_compatible
  incompatible_iff cr = (
    λ h. (
      λ e. ground (arith, eq_iff cr.spec.agent.min_operator_version ""),
      elim (Option-cases (new_version cr.spec.agent.min_operator_version)) [
        | inl n ↦ absurd (ground arith)
        | inr (want, w) ↦ elim (Option-cases (new_version operator_version)) [
          | inl n ↦ absurd (ground arith)
          | inr (have, v) ↦ (want, have, w, v, ground arith)
        ]
      ],
    ),
    λ (asked, (want, have, w, v, less)).
        ground (arith, eq_iff cr.spec.agent.min_operator_version ""),
  )

abbrev pub version_compatible : String
version_compatible = "AgentVersionCompatible"

unfoldable pub compatible_condition : OpenShiftPulse → Bool → String → Condition
compatible_condition cr compatible message =
    if compatible
    then record {
      type = version_compatible;
      status = true;
      reason = "Compatible";
      message = "spec.agent.minOperatorVersion is satisfied by this operator build";
      observed_generation = cr.meta.generation;
    }
    else record {
      type = version_compatible;
      status = false;
      reason = "IncompatibleVersion";
      message = message;
      observed_generation = cr.meta.generation;
    }

unfoldable pub set_agent_version_compatible_condition :
    Host → OpenShiftPulse → Bool → String → OpenShiftPulse
unfolding compatible_condition
set_agent_version_compatible_condition host cr compatible message =
    let status = cr.status in
    record cr {
      status = record status {
        conditions = host.store.set status.conditions (compatible_condition cr compatible message);
      };
    }
