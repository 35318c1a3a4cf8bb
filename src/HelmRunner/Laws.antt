-- ===== src/HelmRunner/Laws.antt =====
-- What the UI is served.
use Prim.Native.String.{◌++◌}
use pulse_operator.Prelude.{
  ℕ, zero, suc, String, true, false, Option, some, ◌≡◌, ◌≢◌, inl, inr, if◌then◌else◌, arith, eq_iff,
  refl, Bool-cases, Option-cases,
}
use pulse_operator.Api.{OpenShiftPulse}
use pulse_operator.Host.{Env}
use pulse_operator.Image.Tag.{contains}
use pulse_operator.Image.Tag.Laws.{contains-append}
use pulse_operator.HelmRunner.{
  is_alnum, is_name_char, is_hex, is_hex_run, cut_prefix, is_digest, is_pinned_rest, is_pinned,
  HelmRunnerSetting, requested_runner, not_set, not_pinned, pinned, resolve_helm_runner, is_unsafe,
  ui_runtime_config_js, ui_runtime_config_global,
}

is_unsafe-append :
    (s t : String) → is_unsafe s ≡ false → is_unsafe t ≡ false → is_unsafe (s ++ t) ≡ false
unfolding is_unsafe
is_unsafe-append s t h k =
    ground
      (arith, h, k, contains-append b'\'' s t, contains-append b'\\' s t, contains-append b'$' s t)

empty_is_safe : is_unsafe (ui_runtime_config_global ++ "={};") ≡ false
unfolding is_unsafe contains
empty_is_safe = refl

ends_are_safe :
    (is_unsafe ui_runtime_config_global ≡ false) × (is_unsafe "=" ≡ false) × (is_unsafe ";" ≡ false)
unfolding is_unsafe contains
ends_are_safe = (refl, refl, refl)

-- The body of /config.js never holds ', \ or $, whatever the image is and however it is encoded: it
-- cannot break out of the nginx text that it is written into.
pub ui_runtime_config_js-safe :
    (marshal : String → Option String) (s : HelmRunnerSetting)
    → is_unsafe (ui_runtime_config_js marshal s) ≡ false
unfolding ui_runtime_config_js
ui_runtime_config_js-safe marshal s = elim (Option-cases (marshal s.image)) [
  | inl e ↦ rw (e, ui_runtime_config_js) empty_is_safe
  | inr (raw, e) ↦ elim (Bool-cases (is_unsafe raw)) [
    | inl u ↦ rw (e, u, ui_runtime_config_js) empty_is_safe
    | inr u ↦
        rw (e, u, ui_runtime_config_js)
          (is_unsafe-append ui_runtime_config_global ("=" ++ (raw ++ ";")) ends_are_safe.0 (
            is_unsafe-append "=" (raw ++ ";") ends_are_safe.1
              (is_unsafe-append raw ";" u ends_are_safe.2)))
  ]
]

empty_not_pinned : (s : String) → s ≡ "" → is_pinned s ≡ false
unfolding is_pinned
empty_not_pinned s e = rw e refl

-- An image is served exactly when the one asked for, in the spec or else in the environment, is
-- pinned by digest; it is then that image, and the condition says so.
pub resolve_helm_runner-image :
    (getenv : Env) (quote : String → String) (cr : OpenShiftPulse)
    → ((resolve_helm_runner getenv quote cr).image
        ≡ (if is_pinned (requested_runner getenv cr).0 then (requested_runner getenv cr).0 else ""))
      × ((resolve_helm_runner getenv quote cr).status ≡ is_pinned (requested_runner getenv cr).0)
unfolding resolve_helm_runner not_set not_pinned pinned
resolve_helm_runner-image getenv quote cr = ground (
  arith,
  eq_iff (requested_runner getenv cr).0 "",
  empty_not_pinned (requested_runner getenv cr).0,
)

contains-cut_prefix :
    (c : ℕ) (p s rest : String)
    → cut_prefix p s ≡ some rest
    → contains c p ≡ false
    → contains c rest ≡ false
    → contains c s ≡ false
unfolding cut_prefix contains
contains-cut_prefix c String.[] s rest e h k = ground arith
contains-cut_prefix c (String.◌∷◌ p ps) String.[] rest e h k = ground arith
contains-cut_prefix c (String.◌∷◌ p ps) (String.◌∷◌ d s) rest e h k =
    ground (arith, contains-cut_prefix c ps s rest)

-- The characters that the pattern's class lacks.
abbrev IsOutside : ℕ → Type 0
IsOutside c = (is_name_char c ≡ false) × (c ≢ b'@') × (is_hex c ≡ false)

hex_run_lacks : (c n : ℕ) (s : String) → IsOutside c → is_hex_run n s ≡ true → contains c s ≡ false
unfolding is_hex_run contains
hex_run_lacks c zero String.[] o h = refl
hex_run_lacks c zero (String.◌∷◌ d s) o h = ground arith
hex_run_lacks c (suc n) String.[] o h = refl
hex_run_lacks c (suc n) (String.◌∷◌ d s) o h = ground (arith, o, hex_run_lacks c n s o)

digest_lacks :
    (c : ℕ) (s : String)
    → IsOutside c
    → contains c "sha256:" ≡ false
    → is_digest s ≡ true
    → contains c s ≡ false
unfolding is_digest
digest_lacks c s o k h = elim (Option-cases (cut_prefix "sha256:" s)) [
  | inl e ↦ ground (arith, e)
  | inr (hex, e) ↦
      contains-cut_prefix c "sha256:" s hex e k (hex_run_lacks c 64 hex o (ground (arith, e, h)))
]

pinned_rest_lacks :
    (c : ℕ) (s : String)
    → IsOutside c
    → contains c "sha256:" ≡ false
    → is_pinned_rest s ≡ true
    → contains c s ≡ false
unfolding is_pinned_rest contains
pinned_rest_lacks c String.[] o k h = refl
pinned_rest_lacks c (String.◌∷◌ d s) o k h =
    ground (arith, o, pinned_rest_lacks c s o k, digest_lacks c s o k)

pinned_lacks :
    (c : ℕ) (s : String)
    → IsOutside c
    → is_alnum c ≡ false
    → contains c "sha256:" ≡ false
    → is_pinned s ≡ true
    → contains c s ≡ false
unfolding is_pinned contains
pinned_lacks c String.[] o a k h = refl
pinned_lacks c (String.◌∷◌ d s) o a k h = ground (arith, a, pinned_rest_lacks c s o k)

-- An image that the pattern accepts holds none of ', \ and $: written into the configuration by an
-- encoder that adds none of them, it is served.
pub pinned_is_safe : (image : String) → is_pinned image ≡ true → is_unsafe image ≡ false
unfolding is_unsafe is_name_char is_alnum is_hex contains
pinned_is_safe image h = ground (
  arith,
  pinned_lacks b'\'' image (refl, (λ e. ground arith), refl) refl refl h,
  pinned_lacks b'\\' image (refl, (λ e. ground arith), refl) refl refl h,
  pinned_lacks b'$' image (refl, (λ e. ground arith), refl) refl refl h,
)
