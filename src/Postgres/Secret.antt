-- ===== src/Postgres/Secret.antt =====
-- reconcilePGSecret: the credentials are made once, and keys of an older version are renamed.
use pulse_operator.Prelude.{
  String, Option, none, some, [], ◌∷◌, Dict, lookup, insert, remove, text_at, if◌then◌else◌,
}
use pulse_operator.Cluster.{Error, wrap, is_not_found, Got, found, failed}

-- What the API and the random generator answer in one pass. `read_error` is
-- the error of the read; without one, the read finds the Secret that there is.
pub record Answers : Type 0 where
  pub read_error : Option Error
  pub write_error : Option Error
  pub generated : Got String

-- The password that is returned, and the Secret after the pass; `none` is no Secret.
pub record Credentials : Type 0 where
  pub password : Got String
  pub secret : Option (Dict String)

-- The Secret with the keys of the older version renamed; a missing value is empty.
unfoldable pub migrate_keys : Dict String → String → Dict String
migrate_keys keys password =
    let user = text_at "POSTGRES_USER" keys in
    let with_user = insert "POSTGRESQL_USER" user keys in
    let with_password = insert "POSTGRESQL_PASSWORD" password with_user in
    let database = text_at "POSTGRES_DB" with_password in
    let with_database = insert "POSTGRESQL_DATABASE" database with_password in
    remove "POSTGRES_DB" (remove "POSTGRES_PASSWORD" (remove "POSTGRES_USER" with_database))

unfoldable pub new_secret : String → Dict String
new_secret password =
    ("POSTGRESQL_USER", "pulse")
    ∷ ("POSTGRESQL_PASSWORD", password)
    ∷ ("POSTGRESQL_DATABASE", "pulse")
    ∷ []

-- The branch of a Secret that is there.
unfoldable pub stored_password : Answers → Dict String → Credentials
stored_password answers keys = elim (lookup "POSTGRESQL_PASSWORD" keys) [
  | some password ↦ record { password = found password; secret = some keys }
  | none ↦ elim (lookup "POSTGRES_PASSWORD" keys) [
    | none ↦ record { password = found ""; secret = some keys }
    | some password ↦ elim answers.write_error [
      | some e ↦ record {
        password = failed (wrap "migrate pg-auth secret keys" e);
        secret = some keys;
      }
      | none ↦ record { password = found password; secret = some (migrate_keys keys password) }
    ]
  ]
]

-- The branch of a missing Secret.
unfoldable pub create_password : Answers → Option (Dict String) → Credentials
create_password answers secret = elim answers.generated [
  | failed e ↦ record { password = failed (wrap "generate password" e); secret = secret }
  | found password ↦ elim answers.write_error [
    | some e ↦ record { password = failed e; secret = secret }
    | none ↦ record { password = found password; secret = some (new_secret password) }
  ]
]

unfoldable pub reconcile_pg_secret : Answers → Option (Dict String) → Credentials
unfolding stored_password create_password
reconcile_pg_secret answers secret = elim answers.read_error [
  | some e ↦
      if is_not_found e
      then create_password answers secret
      else record { password = failed e; secret = secret }
  | none ↦ elim secret [
    | none ↦ create_password answers none
    | some keys ↦ stored_password answers keys
  ]
]
