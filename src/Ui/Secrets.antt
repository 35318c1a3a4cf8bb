-- ===== src/Ui/Secrets.antt =====
-- reconcileUIOAuthSecrets: the OAuth client's secret is made once, and a malformed cookie secret is
-- repaired in place.
use pulse_operator.Prelude.{
  ℕ, String, Option, none, some, List, [], ◌∷◌, Dict, lookup, insert, lookup-insert, if◌then◌else◌,
  ◌≡◌, ◌≢◌, refl, ◌∙◌, arith, eq_iff, Option-cases, Bool-cases, inl, inr,
}
use pulse_operator.Host.{Host, Event, normal, record_event}
use pulse_operator.Cluster.{Error, wrap, is_not_found, Got, found, failed, Got-cases}
use pulse_operator.Ui.Cookie.{is_valid_cookie_secret}

-- A Secret's data: bytes by key.
abbrev pub SecretData : Type 0
SecretData = Dict (List ℕ)

-- What the API and the random source answer: the error of the read (without one the read finds the
-- Secret that there is), of setting the controller reference and of the write; the client secret and
-- the cookie secret that are generated.
pub record Answers : Type 0 where
  pub read_error : Option Error
  pub owner_error : Option Error
  pub write_error : Option Error
  pub client : Got (List ℕ)
  pub cookie : Got (List ℕ)

pub record Outcome : Type 0 where
  pub stored : Option SecretData
  pub error : Option Error
  pub events : List Event

-- `data[key]`: empty when it is missing.
unfoldable pub bytes_at : String → SecretData → List ℕ
bytes_at key keys = elim (lookup key keys) [ none ↦ [] | some b ↦ b ]

abbrev failing : Option SecretData → Error → Outcome
failing stored e = record { stored = stored; error = some e; events = [] }

-- The branch of a Secret that is there.
unfoldable pub repair_cookie : Host → Answers → SecretData → Outcome
unfolding bytes_at is_valid_cookie_secret
repair_cookie host answers keys =
    if is_valid_cookie_secret (bytes_at "cookie-secret" keys)
    then record { stored = some keys; error = none; events = [] }
    else elim answers.cookie [
      | failed e ↦ failing (some keys) (wrap "generate cookie-secret" e)
      | found cookie ↦ elim answers.write_error [
        | some e ↦ failing (some keys) e
        | none ↦ record {
          stored = some (insert "cookie-secret" cookie keys);
          error = none;
          events = record_event host normal "SelfHealed" [];
        }
      ]
    ]

-- The branch of a missing Secret.
unfoldable pub create_secrets : Answers → Option SecretData → Outcome
create_secrets answers stored = elim answers.client [
  | failed e ↦ failing stored (wrap "generate client-secret" e)
  | found client ↦ elim answers.cookie [
    | failed e ↦ failing stored (wrap "generate cookie-secret" e)
    | found cookie ↦ elim answers.owner_error [
      | some e ↦ failing stored e
      | none ↦ elim answers.write_error [
        | some e ↦ failing stored e
        | none ↦ record {
          stored = some (("client-secret", client) ∷ ("cookie-secret", cookie) ∷ []);
          error = none;
          events = [];
        }
      ]
    ]
  ]
]

unfoldable pub reconcile_oauth_secrets : Host → Answers → Option SecretData → Outcome
unfolding repair_cookie create_secrets
reconcile_oauth_secrets host answers stored = elim answers.read_error [
  | some e ↦ if is_not_found e then create_secrets answers stored else failing stored e
  | none ↦ elim stored [
    | none ↦ create_secrets answers none
    | some keys ↦ repair_cookie host answers keys
  ]
]

repair-kept :
    (host : Host) (answers : Answers) (keys : SecretData) (key : String)
    → key ≢ "cookie-secret"
    → (after : SecretData) × ((repair_cookie host answers keys).stored ≡ some after)
      × (lookup key after ≡ lookup key keys)
unfolding repair_cookie
repair-kept host answers keys key other =
    elim (Bool-cases (is_valid_cookie_secret (bytes_at "cookie-secret" keys))) [
      | inl y ↦ (keys, ground (arith, y), refl)
      | inr n ↦ elim (Got-cases answers.cookie) [
        | inl (e, c) ↦ (keys, ground (arith, n, c), refl)
        | inr (cookie, c) ↦ elim (Option-cases answers.write_error) [
          | inr (e, w) ↦ (keys, ground (arith, n, c, w), refl)
          | inl w ↦ (
            insert "cookie-secret" cookie keys,
            ground (arith, n, c, w),
            lookup-insert "cookie-secret" key cookie keys
                ∙ ground (arith, eq_iff "cookie-secret" key, other),
          )
        ]
      ]
    ]

-- A pass that can read the Secret leaves it there and never touches what it holds beside the cookie
-- secret: the OAuth client's secret is not rotated, whatever is repaired and whatever fails.
pub client_secret_never_rotates :
    (host : Host) (answers : Answers) (keys : SecretData) (key : String)
    → answers.read_error ≡ none
    → key ≢ "cookie-secret"
    → (after : SecretData) × ((reconcile_oauth_secrets host answers (some keys)).stored
        ≡ some after)
      × (lookup key after ≡ lookup key keys)
unfolding reconcile_oauth_secrets
client_secret_never_rotates host answers keys key readable other =
    let (after, stored, same) = repair-kept host answers keys key other in
    (after, ground (arith, readable, stored), same)
