-- ===== src/Postgres/Laws.antt =====
-- The database keeps its password and its major version, and only a stuck pod is deleted.
use pulse_operator.Prelude.{
  ℕ, String, true, Option, none, some, List, Dict, lookup, lookup-insert, lookup-remove, ◌≡◌, ◌≢◌,
  ◌⊎◌, ◌↔◌, ◌≤◌, ◌+◌, inl, inr, refl, ◌∙◌, arith, eq_iff, Option-cases, Bool-cases,
}
use pulse_operator.Host.{Host, Event}
use pulse_operator.Cluster.{Error, Got, found, Got-cases, is_not_found}
use pulse_operator.Postgres.Secret.{
  Answers, Credentials, migrate_keys, new_secret, stored_password, create_password,
  reconcile_pg_secret,
}
use pulse_operator.Postgres.Version.{pg_major_version, guard_pg_major_version}
use pulse_operator.Postgres.StalePod.{
  pg_pending_pod_stale_threshold, PgPod, is_pg_pod_stale, delete_pending_pg_pod_if_stale,
}

-- A renamed key: the password is where the newer version looks for it.
pub migrated_password :
    (keys : Dict String) (password : String)
    → lookup "POSTGRESQL_PASSWORD" (migrate_keys keys password) ≡ some password
unfolding migrate_keys
migrated_password keys password = simp (lookup-remove, lookup-insert)

-- The Secret gives the password, in one of the two ways that a pass reads it.
abbrev pub IsSettled : Dict String → String → Type 0
IsSettled keys password =
    (lookup "POSTGRESQL_PASSWORD" keys ≡ some password)
    ⊎ ((lookup "POSTGRESQL_PASSWORD" keys ≡ none)
        × (lookup "POSTGRES_PASSWORD" keys ≡ none)
        × (password ≡ ""))

abbrev pub Gives : Credentials → String → Type 0
Gives c password = (keys : Dict String) × (c.secret ≡ some keys) × IsSettled keys password

stored_password-IsSettled :
    (answers : Answers) (keys : Dict String) (password : String)
    → (stored_password answers keys).password ≡ found password
    → Gives (stored_password answers keys) password
unfolding stored_password
stored_password-IsSettled answers keys password h =
    elim (Option-cases (lookup "POSTGRESQL_PASSWORD" keys)) [
      | inr (p, e) ↦ (keys, ground (arith, e), inl (ground (arith, e, h)))
      | inl e ↦ elim (Option-cases (lookup "POSTGRES_PASSWORD" keys)) [
        | inl l ↦ (keys, ground (arith, e, l), inr (e, l, ground (arith, e, l, h)))
        | inr (p, l) ↦ elim (Option-cases answers.write_error) [
          | inr (x, w) ↦ absurd (ground (arith, e, l, w, h))
          | inl w ↦ (
            migrate_keys keys p,
            ground (arith, e, l, w),
            inl (migrated_password keys p ∙ ground (arith, e, l, w, h)),
          )
        ]
      ]
    ]

new_secret-password :
    (password : String) → lookup "POSTGRESQL_PASSWORD" (new_secret password) ≡ some password
unfolding new_secret lookup
new_secret-password password = refl

create_password-IsSettled :
    (answers : Answers) (secret : Option (Dict String)) (password : String)
    → (create_password answers secret).password ≡ found password
    → Gives (create_password answers secret) password
unfolding create_password
create_password-IsSettled answers secret password h = elim (Got-cases answers.generated) [
  | inl (x, g) ↦ absurd (ground (arith, g, h))
  | inr (p, g) ↦ elim (Option-cases answers.write_error) [
    | inr (x, w) ↦ absurd (ground (arith, g, w, h))
    | inl w ↦
        (new_secret p, ground (arith, g, w), inl (new_secret-password p ∙ ground (arith, g, w, h)))
  ]
]

pub reconcile_pg_secret-IsSettled :
    (answers : Answers) (secret : Option (Dict String)) (password : String)
    → (reconcile_pg_secret answers secret).password ≡ found password
    → Gives (reconcile_pg_secret answers secret) password
unfolding reconcile_pg_secret
reconcile_pg_secret-IsSettled answers secret password h = elim (Option-cases answers.read_error) [
  | inr (x, r) ↦ elim (Bool-cases (is_not_found x)) [
    | inl missing ↦
        rw (r, missing, reconcile_pg_secret)
          (create_password-IsSettled answers secret password (ground (arith, r, missing, h)))
    | inr other ↦ absurd (ground (arith, r, other, h))
  ]
  | inl r ↦ elim (Option-cases secret) [
    | inl e ↦
        rw (r, e, reconcile_pg_secret)
          (create_password-IsSettled answers none password (ground (arith, r, e, h)))
    | inr (keys, e) ↦
        rw (r, e, reconcile_pg_secret)
          (stored_password-IsSettled answers keys password (ground (arith, r, e, h)))
  ]
]

settled_stays :
    (later : Answers) (secret : Option (Dict String)) (password : String) (keys : Dict String)
    → later.read_error ≡ none
    → secret ≡ some keys
    → IsSettled keys password
    → ((reconcile_pg_secret later secret).password ≡ found password)
      × ((reconcile_pg_secret later secret).secret ≡ secret)
unfolding reconcile_pg_secret stored_password
settled_stays later secret password keys readable e ok = ground (arith, readable, e, ok)

-- A password that one pass returned is the one that every later pass returns that can read the
-- Secret, and those passes leave the Secret as it is: the password is never rotated.
pub password_never_rotates :
    (first later : Answers) (secret : Option (Dict String)) (password : String)
    → (reconcile_pg_secret first secret).password ≡ found password
    → later.read_error ≡ none
    → ((reconcile_pg_secret later (reconcile_pg_secret first secret).secret).password
        ≡ found password)
      × ((reconcile_pg_secret later (reconcile_pg_secret first secret).secret).secret
          ≡ (reconcile_pg_secret first secret).secret)
password_never_rotates first later secret password h readable =
    let (keys, e, ok) = reconcile_pg_secret-IsSettled first secret password h in
    settled_stays later (reconcile_pg_secret first secret).secret password keys readable e ok

-- Where an image runs, and the major versions of it and of the requested image can be read, the
-- image after the guard is of the running one's major version.
pub guard_keeps_major_version :
    (host : Host) (current desired : String) (events : List Event)
    → current ≢ ""
    → pg_major_version current ≢ 0
    → pg_major_version desired ≢ 0
    → pg_major_version (guard_pg_major_version host current desired events).0
      ≡ pg_major_version current
unfolding guard_pg_major_version
guard_keeps_major_version host current desired events run from to =
    ground (arith, eq_iff current "")

is_pg_pod_stale_iff :
    (pod : PgPod) (update_revision : String) (now : ℕ)
    → (is_pg_pod_stale pod update_revision now ≡ true) ↔ (
        (pod.is_pending ≡ true)
        × (pod.created + pg_pending_pod_stale_threshold ≤ now)
        × (update_revision ≢ "")
        × (pod.revision ≢ update_revision))
unfolding is_pg_pod_stale
is_pg_pod_stale_iff pod update_revision now =
    ground (arith, eq_iff update_revision "", eq_iff pod.revision update_revision)

-- A pod is deleted exactly when it and the StatefulSet can be read, it has been Pending for two
-- minutes or longer, and it was made from another revision than the known current one.
pub stale_pod_deleted_iff :
    (host : Host) (now : ℕ) (pod_got : Got PgPod) (update_got : Got String)
    (delete_error : Option Error)
    → ((delete_pending_pg_pod_if_stale host now pod_got update_got delete_error).delete_asked
        ≡ true)
      ↔ ((pod : PgPod) × (update_revision : String) × (pod_got ≡ found pod)
          × (update_got ≡ found update_revision)
          × (pod.is_pending ≡ true)
          × (pod.created + pg_pending_pod_stale_threshold ≤ now)
          × (update_revision ≢ "")
          × (pod.revision ≢ update_revision))
unfolding delete_pending_pg_pod_if_stale
stale_pod_deleted_iff host now pod_got update_got delete_error = (
  λ h. elim (Got-cases pod_got) [
    | inl (x, p) ↦ absurd (ground (arith, p, h))
    | inr (pod, p) ↦ elim (Got-cases update_got) [
      | inl (x, u) ↦ absurd (ground (arith, p, u, h))
      | inr (update_revision, u) ↦
          let stale : is_pg_pod_stale pod update_revision now ≡ true = ground (arith, p, u, h) in
          let (pending, old, known, other) =
            (is_pg_pod_stale_iff pod update_revision now).0 stale in
          (pod, update_revision, p, u, pending, old, known, other)
    ]
  ],
  λ (pod, update_revision, p, u, pending, old, known, other).
      ground
        (arith, p, u, (is_pg_pod_stale_iff pod update_revision now).1 (pending, old, known, other)),
)
