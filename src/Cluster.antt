-- ===== src/Cluster.antt =====
-- The Kubernetes API as the controller sees it. The API server and its other users are not part of
-- the program: what a call answers is a parameter, any function of the calls made before it. So a
-- theorem holds whatever the cluster answers, between any two calls. A program that calls the API
-- is a state monad over the log of calls.
pub mod Removal
use mathlib.Core.List.{◌++◌}
use pulse_operator.Prelude.{
  ℕ, String, Bool, true, false, Option, none, some, List, [], ◌∷◌, Dict, is_some, if◌then◌else◌,
  ◌≡◌, refl, ◌⊎◌, inl, inr,
}

-- The errors that the controller tells apart: an API status by whether its reason is NotFound,
-- IsNoMatchError, and the rest. `wrap` is fmt.Errorf with %w, which keeps what is wrapped; `join` is
-- errors.Join of two or more.
pub data Error : Type 0 where
  not_found : Error
  api_status : String → Error
  no_match : Error
  other : String → Error
  wrap : String → Error → Error
  join : Error → Error → Error

-- The first API status that errors.As finds in the tree, and whether its reason is NotFound.
unfoldable pub status_not_found : Error → Option Bool
status_not_found not_found = some true
status_not_found (api_status text) = some false
status_not_found (wrap text e) = status_not_found e
status_not_found (join e f) = elim (status_not_found e) [
  | none ↦ status_not_found f
  | some r ↦ some r
]
status_not_found _ = none

-- apierrors.IsNotFound.
unfoldable pub is_not_found : Error → Bool
is_not_found e = elim (status_not_found e) [ none ↦ false | some r ↦ r ]

-- meta.IsNoMatchError looks at the error itself.
unfoldable pub is_no_match : Error → Bool
is_no_match no_match = true
is_no_match _ = false

pub data Kind : Type 0 where
  cluster_role cluster_role_binding oauth_client : Kind
  deployment stateful_set pod service secret pvc config_map service_account
        persistent_volume_claim :
      Kind
  pod_disruption_budget network_policy openshift_pulse : Kind

-- What a call names: a kind, a namespace (empty for cluster-scoped kinds) and a name.
pub record Ref : Type 0 where
  pub kind : Kind
  pub namespace : String
  pub name : String

-- The metadata of a stored object that decides on its owner: its annotations, the UID in its
-- controller reference, and its own UID.
pub record Stored : Type 0 where
  pub annotations : Dict String
  pub controller : Option String

pub data Call : Type 0 where
  get : Ref → Call
  create : Ref → Call
  update : Ref → Call
  delete : Ref → Call

abbrev pub Log : Type 0
Log = List Call

pub data Got {ℓ} (A : Type ℓ) : Type ℓ where
  found : A → Got A
  failed : Error → Got A

pub Got-cases {ℓ} :
    {A : Type ℓ} (g : Got A) → ((e : Error) × (g ≡ failed e)) ⊎ ((a : A) × (g ≡ found a))
Got-cases (failed e) = inl (e, refl)
Got-cases (found a) = inr (a, refl)

-- The answers of the API, given the calls before.
pub record Cluster : Type 0 where
  pub on_get : Log → Ref → Got Stored
  pub on_write : Log → Call → Option Error

-- A program's result and the log after it. `err = nil` is `none`.
abbrev pub M : Type 0 → Type 0
M A = Log → A × Log

infixl 5 ◌>>=◌ ◌>>◌
abbrev pub ◌>>=◌ : {A B : Type 0} → M A → (A → M B) → M B
◌>>=◌ m f log = let (a, log') = m log in f a log'

abbrev pub ◌>>◌ : {A B : Type 0} → M A → M B → M B
m >> k = m >>= λ _. k

abbrev pub return : {A : Type 0} → A → M A
return a log = (a, log)

module _ (cluster : Cluster) where
  abbrev pub api_get : Ref → M (Got Stored)
  api_get ref log = (cluster.on_get log ref, log ++ get ref ∷ [])

  abbrev pub api_delete : Ref → M (Option Error)
  api_delete ref log = (cluster.on_write log (delete ref), log ++ delete ref ∷ [])

  abbrev pub api_update : Ref → M (Option Error)
  api_update ref log = (cluster.on_write log (update ref), log ++ update ref ∷ [])

  abbrev pub api_create : Ref → M (Option Error)
  api_create ref log = (cluster.on_write log (create ref), log ++ create ref ∷ [])

-- errors.Join: nil errors are dropped, and no error is nil.
unfoldable pub join_errors : List Error → Option Error
join_errors [] = none
join_errors (e ∷ []) = some e
join_errors (e ∷ (f ∷ rest)) = elim (join_errors (f ∷ rest)) [
  | none ↦ some e
  | some r ↦ some (join e r)
]
