-- ===== src/HelmRunner.antt =====
-- helm_runner.go: the Helm runner image and the UI's /config.js.
pub mod Laws
use Prim.Native.String
use Prim.Native.String.{◌++◌}
use pulse_operator.Prelude.{
  ℕ, zero, suc, String, code, Bool, true, false, ◌&&◌, ◌||◌, leb, eqb, Option, none, some, ◌==◌,
  if◌then◌else◌,
}
use pulse_operator.Api.{OpenShiftPulse, Condition}
use pulse_operator.Host.{Env, Host}
use pulse_operator.Image.Tag.{contains}
use pulse_operator.Pods.{truncate}

abbrev pub env_helm_runner_image : String
env_helm_runner_image = "RELATED_IMAGE_HELM_RUNNER"

abbrev between : ℕ → ℕ → ℕ → Bool
between lo hi c = leb lo c && leb c hi

-- [A-Za-z0-9]
unfoldable pub is_alnum : ℕ → Bool
is_alnum c = between b'A' b'Z' c || (between b'a' b'z' c || between b'0' b'9' c)

-- [A-Za-z0-9._/:-]
unfoldable pub is_name_char : ℕ → Bool
unfolding is_alnum
is_name_char c =
    is_alnum c || (eqb c b'.' || (eqb c b'_' || (eqb c b'/' || (eqb c b':' || eqb c b'-'))))

-- [a-f0-9]
unfoldable pub is_hex : ℕ → Bool
is_hex c = between b'a' b'f' c || between b'0' b'9' c

-- [a-f0-9]{n} to the end of the text.
unfoldable pub is_hex_run : ℕ → String → Bool
unfolding is_hex
is_hex_run zero String.[] = true
is_hex_run zero (String.◌∷◌ c s) = false
is_hex_run (suc n) String.[] = false
is_hex_run (suc n) (String.◌∷◌ c s) = is_hex (code c) && is_hex_run n s

-- What follows the given text at the start of another; `none` when it does not start so.
unfoldable pub cut_prefix : String → String → Option String
cut_prefix String.[] s = some s
cut_prefix (String.◌∷◌ p ps) String.[] = none
cut_prefix (String.◌∷◌ p ps) (String.◌∷◌ c s) =
    let rest = cut_prefix ps s in if eqb (code p) (code c) then rest else none

-- sha256:[a-f0-9]{64} to the end.
unfoldable pub is_digest : String → Bool
unfolding cut_prefix is_hex_run
is_digest s = elim (cut_prefix "sha256:" s) [ none ↦ false | some hex ↦ is_hex_run 64 hex ]

-- The rest of the pattern behind the first character; `@` is no name character, so the first `@`
-- ends the name.
unfoldable pub is_pinned_rest : String → Bool
unfolding is_name_char is_digest
is_pinned_rest String.[] = false
is_pinned_rest (String.◌∷◌ c s) =
    let rest = is_pinned_rest s in
    if is_name_char (code c) then rest else eqb (code c) b'@' && is_digest s

-- helmRunnerImagePattern
unfoldable pub is_pinned : String → Bool
unfolding is_alnum is_pinned_rest
is_pinned String.[] = false
is_pinned (String.◌∷◌ c s) = is_alnum (code c) && is_pinned_rest s

pub record HelmRunnerSetting : Type 0 where
  pub image : String
  pub status : Bool
  pub reason : String
  pub message : String

-- The image asked for and where it was; `quote` is %q.
unfoldable pub requested_runner : Env → OpenShiftPulse → String × String
requested_runner getenv cr =
    if cr.spec.ui.helm_runner_image == ""
    then (getenv env_helm_runner_image, env_helm_runner_image)
    else (cr.spec.ui.helm_runner_image, "spec.ui.helmRunnerImage")

unfoldable pub not_set : HelmRunnerSetting
not_set = record {
  image = "";
  status = false;
  reason = "NotSet";
  message =
      "No Helm runner image: spec.ui.helmRunnerImage is unset and this operator release pins none ("
      ++ (env_helm_runner_image ++ "). Helm actions in the UI are disabled.");
}

unfoldable pub not_pinned : (String → String) → String → String → HelmRunnerSetting
not_pinned quote image source = record {
  image = "";
  status = false;
  reason = "NotDigestPinned";
  message =
      source
      ++ (" is "
          ++ (quote (truncate image 256)
              ++ (", which is not digest-pinned (<repository>@sha256:<64 hex>). "
                  ++ "The UI refuses a runner image that is not pinned by digest, so none is served and Helm actions in the UI are disabled.")));
}

unfoldable pub pinned : String → String → HelmRunnerSetting
pinned image source = record {
  image = image;
  status = true;
  reason = "Pinned";
  message = "The UI runs Helm Jobs with " ++ (image ++ (" (from " ++ (source ++ ")")));
}

unfoldable pub resolve_helm_runner : Env → (String → String) → OpenShiftPulse → HelmRunnerSetting
unfolding requested_runner
resolve_helm_runner getenv quote cr =
    let (image, source) = requested_runner getenv cr in
    if image == ""
    then not_set
    else if is_pinned image
    then pinned image source
    else not_pinned quote image source

unfoldable pub set_helm_runner_condition :
    Host → OpenShiftPulse → HelmRunnerSetting → OpenShiftPulse
set_helm_runner_condition host cr s =
    let status = cr.status in
    record cr {
      status = record status {
        conditions = (host.store).set status.conditions (record {
          type = "HelmRunnerImageConfigured";
          status = s.status;
          reason = s.reason;
          message = s.message;
          observed_generation = cr.meta.generation;
        });
      };
    }

abbrev pub ui_runtime_config_global : String
ui_runtime_config_global = "window.__OPENSHIFTPULSE_CONFIG__"

-- strings.ContainsAny(s, nginxUnsafeChars), the characters ' \ $.
unfoldable pub is_unsafe : String → Bool
is_unsafe s = contains b'\'' s || (contains b'\\' s || contains b'$' s)

-- The body of /config.js. `marshal` is json.Marshal of the configuration with the given runner
-- image, which may be empty; `none` is an error.
unfoldable pub ui_runtime_config_js : (String → Option String) → HelmRunnerSetting → String
ui_runtime_config_js marshal s = elim (marshal s.image) [
  | none ↦ ui_runtime_config_global ++ "={};"
  | some raw ↦
      if is_unsafe raw
      then ui_runtime_config_global ++ "={};"
      else ui_runtime_config_global ++ ("=" ++ (raw ++ ";"))
]
