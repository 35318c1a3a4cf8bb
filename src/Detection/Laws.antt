-- ===== src/Detection/Laws.antt =====
-- What the cache of the detection holds after any run of calls.
use mathlib.Core.Option
use pulse_operator.Prelude.{
  true, false, Option, none, some, List, [], ◌∷◌, if◌then◌else◌, ◌≡◌, refl, Bool-cases, inl, inr,
}
use pulse_operator.Host.{Env}
use pulse_operator.Cluster.{Error}
use pulse_operator.Detection.{
  ClusterInfo, Reads, detected, is_fully_detected, detect_cluster_info, cache_after,
}

-- The reads of the first call that finds the Ingress.
unfoldable pub first_detected : List Reads → Option Reads
first_detected [] = none
first_detected (reads ∷ rest) =
    let later = first_detected rest in if is_fully_detected reads then some reads else later

cached_stays :
    (getenv : Env) (info : ClusterInfo) (calls : List Reads)
    → cache_after getenv (some info) calls ≡ some info
unfolding cache_after detect_cluster_info
cached_stays getenv info [] = refl
cached_stays getenv info (reads ∷ rest) = cached_stays getenv info rest

-- After any run of calls on an empty cache, the cache holds what the first call that found the
-- Ingress detected, and nothing before there is such a call.
pub cache_after-first_detected :
    (getenv : Env) (calls : List Reads)
    → cache_after getenv none calls ≡ Option.map (detected getenv) (first_detected calls)
unfolding cache_after first_detected detect_cluster_info
cache_after-first_detected getenv [] = refl
cache_after-first_detected getenv (reads ∷ rest) = elim (Bool-cases (is_fully_detected reads)) [
  | inl y ↦ rw (y) (cached_stays getenv (detected getenv reads) rest)
  | inr n ↦ rw (n) (cache_after-first_detected getenv rest)
]

acm_missed :
    (getenv : Env) (first : Reads) (e : Error)
    → first.acm_namespace ≡ some e
    → (detected getenv first).acm_available ≡ false
unfolding detected
acm_missed getenv first e miss = rw miss refl

-- An error on the read of the ACM namespace, whatever it is, in the call that finds the Ingress is
-- never made good: every later call answers that ACM is absent, whatever it could read.
pub acm_miss_is_cached :
    (getenv : Env) (first last : Reads) (between : List Reads) (e : Error)
    → is_fully_detected first ≡ true
    → first.acm_namespace ≡ some e
    → (detect_cluster_info getenv (cache_after getenv none (first ∷ between)) last).0.acm_available
      ≡ false
unfolding cache_after detect_cluster_info
acm_miss_is_cached getenv first last between e full miss =
    rw (full, cached_stays getenv (detected getenv first) between) (acm_missed getenv first e miss)
