-- ===== src/Detection.antt =====
-- cluster_detect.go: what the operator finds out about the cluster, and its cache for the life of
-- the process. What the API answers to the reads of one call is an argument.
pub mod Laws
use Prim.Native.String.{◌++◌}
use pulse_operator.Prelude.{
  String, Bool, true, false, not, ◌&&◌, ◌||◌, Option, none, some, List, [], ◌∷◌, ◌==◌,
  if◌then◌else◌,
}
use pulse_operator.Cluster.{Error, Got, found, failed}
use pulse_operator.Host.{Env}
use pulse_operator.Image.Choice.{image_from_env}
use pulse_operator.Image.Tag.{contains}

pub record ClusterInfo : Type 0 where
  pub ingress_domain : String
  pub oauth_proxy_image : String
  pub acm_available : Bool
  pub acm_thanos_url : String

-- A tag of an ImageStream's spec: its name, and what it is taken from.
pub record SpecTag : Type 0 where
  pub name : String
  pub from : Option String

-- A tag of its status: the images, the newest first.
pub record StatusTag : Type 0 where
  pub tag : String
  pub items : List String

pub record ImageStream : Type 0 where
  pub spec_tags : List SpecTag
  pub repository : String
  pub status_tags : List StatusTag

-- What the four reads of a call answer: the Ingress's domain, the ImageStream, and the errors on the
-- ACM namespace and on the service in it.
pub record Reads : Type 0 where
  pub ingress : Got String
  pub image_stream : Got ImageStream
  pub acm_namespace : Option Error
  pub thanos : Option Error

abbrev pub default_oauth_proxy_image : String
default_oauth_proxy_image = "quay.io/openshift/origin-oauth-proxy:4.15"

abbrev pub env_oauth_proxy_image : String
env_oauth_proxy_image = "RELATED_IMAGE_OAUTH_PROXY"

abbrev is_wanted_tag : String → Bool
is_wanted_tag name = name == "v4.4" || name == "latest"

-- The loop over spec.tags: the first wanted tag decides.
unfoldable pub spec_tag_image : String → List SpecTag → String
spec_tag_image image [] = image
spec_tag_image image (tag ∷ tags) =
    let later = spec_tag_image image tags in
    if is_wanted_tag tag.name
    then elim tag.from [ none ↦ image | some name ↦ if name == "" then image else name ]
    else later

-- The loop over status.tags: the first wanted tag with an image decides.
unfoldable pub status_tag_image : String → String → List StatusTag → String
status_tag_image repository image [] = image
status_tag_image repository image (tag ∷ tags) =
    let later = status_tag_image repository image tags in
    if is_wanted_tag tag.tag
    then elim tag.items [ [] ↦ later | item ∷ items ↦ repository ++ ("@" ++ item) ]
    else later

unfoldable pub stream_image : String → ImageStream → String
unfolding spec_tag_image status_tag_image contains
stream_image image stream =
    let chosen = spec_tag_image image stream.spec_tags in
    if not (stream.repository == "") && not (contains b'@' chosen)
    then status_tag_image stream.repository chosen stream.status_tags
    else chosen

unfoldable pub thanos_url : Option Error → String
thanos_url (some e) = ""
thanos_url none = "http://thanos-querier.open-cluster-management-observability.svc:9091"

-- The values that a call without a cache finds.
unfoldable pub detected : Env → Reads → ClusterInfo
unfolding stream_image thanos_url
detected getenv reads =
    let image = image_from_env getenv env_oauth_proxy_image default_oauth_proxy_image in
    record {
      ingress_domain = elim reads.ingress [ failed e ↦ "" | found domain ↦ domain ];
      oauth_proxy_image = elim reads.image_stream [
        | failed e ↦ image
        | found stream ↦ stream_image image stream
      ];
      acm_available = elim reads.acm_namespace [ some e ↦ false | none ↦ true ];
      acm_thanos_url = elim reads.acm_namespace [ some e ↦ "" | none ↦ thanos_url reads.thanos ];
    }

-- fullyDetected
unfoldable pub is_fully_detected : Reads → Bool
is_fully_detected reads = elim reads.ingress [ failed e ↦ false | found domain ↦ true ]

-- One call: the result, and the cache after it.
unfoldable pub detect_cluster_info :
    Env → Option ClusterInfo → Reads → ClusterInfo × Option ClusterInfo
detect_cluster_info getenv (some cached) reads = (cached, some cached)
detect_cluster_info getenv none reads =
    let info = detected getenv reads in (info, if is_fully_detected reads then some info else none)

-- The cache after a run of calls.
unfoldable pub cache_after : Env → Option ClusterInfo → List Reads → Option ClusterInfo
unfolding detect_cluster_info
cache_after getenv cache [] = cache
cache_after getenv cache (reads ∷ rest) =
    cache_after getenv (detect_cluster_info getenv cache reads).1 rest
