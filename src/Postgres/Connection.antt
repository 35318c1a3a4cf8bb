-- ===== src/Postgres/Connection.antt =====
-- reconcilePostgres: the order of the database's steps, and the Secret with the connection URL.
use Prim.Native.String.{◌++◌}
use pulse_operator.Prelude.{
  ℕ, String, ltb, Option, none, some, [], ◌∷◌, Dict, lookup, lookup-insert, insert, text_at, ◌==◌,
  if◌then◌else◌, ◌≡◌, refl, arith, eq_iff, Option-cases, inl, inr,
}
use pulse_operator.Cluster.{Error, wrap, is_not_found, found, failed, Got-cases}
use pulse_operator.Names.{pg_stateful_set_name}
use pulse_operator.Postgres.Secret.{Answers, Credentials, reconcile_pg_secret}
use pulse_operator.Postgres.Laws.{Gives, reconcile_pg_secret-IsSettled}
use pulse_operator.Postgres.StatefulSet.{Result}

unfoldable pub database_url : String → String → String
database_url cr_name password =
    "postgresql://pulse:" ++ (password ++ ("@" ++ (pg_stateful_set_name cr_name ++ ":5432/pulse")))

-- What the API answers on the connection Secret: the errors of the read (without one the read finds
-- the Secret that there is), of setting the controller reference, and of the write.
pub record ConnectionAnswers : Type 0 where
  pub read_error : Option Error
  pub owner_error : Option Error
  pub write_error : Option Error

-- The error, and the connection Secret afterwards.
abbrev pub Connected : Type 0
Connected = Option Error × Option (Dict String)

unfoldable pub create_connection : ConnectionAnswers → String → Option (Dict String) → Connected
create_connection answers url stored = elim answers.owner_error [
  | some e ↦ (some (wrap "set owner on pg connection secret" e), stored)
  | none ↦ elim answers.write_error [
    | some e ↦ (some (wrap "create pg connection secret" e), stored)
    | none ↦ (none, some (("database-url", url) ∷ []))
  ]
]

unfoldable pub refresh_connection : ConnectionAnswers → String → Dict String → Connected
refresh_connection answers url keys =
    if text_at "database-url" keys == url then (none, some keys) else elim answers.write_error [
      | some e ↦ (some (wrap "update pg connection secret" e), some keys)
      | none ↦ (none, some (insert "database-url" url keys))
    ]

unfoldable pub reconcile_connection : ConnectionAnswers → String → Option (Dict String) → Connected
unfolding create_connection refresh_connection
reconcile_connection answers url stored = elim answers.read_error [
  | some e ↦ if is_not_found e then create_connection answers url stored else (some e, stored)
  | none ↦ elim stored [
    | none ↦ create_connection answers url none
    | some keys ↦ refresh_connection answers url keys
  ]
]

-- What reconcilePostgres returns, and the connection Secret afterwards.
pub record Reconciled : Type 0 where
  pub url : String
  pub requeue_after : ℕ
  pub error : Option Error
  pub connection : Option (Dict String)

abbrev stopped : Option (Dict String) → String → Error → Reconciled
stopped stored text e = record {
  url = "";
  requeue_after = 0;
  error = some (wrap text e);
  connection = stored;
}

-- The StatefulSet's step with the expansion of its volume, whose error counts only after the
-- StatefulSet's own.
unfoldable pub stateful_set_step : Result → Option Error → ℕ × Option Error
stateful_set_step result expansion_error = elim result.error [
  | some e ↦ (0, some e)
  | none ↦ if ltb 0 result.requeue_after then (result.requeue_after, none) else (0, expansion_error)
]

-- The steps in order: `scripts_error`, `service_error` and `headless_error` are the errors of the
-- writes of the start scripts and of the two services.
unfoldable pub reconcile_postgres :
    String
    → Option Error
    → Credentials
    → ℕ × Option Error
    → Option Error
    → Option Error
    → ConnectionAnswers
    → Option (Dict String)
    → Reconciled
unfolding reconcile_connection
reconcile_postgres cr_name scripts_error credentials set service_error headless_error answers
      stored =
    elim scripts_error [
      | some e ↦ stopped stored "pg start scripts" e
      | none ↦ elim credentials.password [
        | failed e ↦ stopped stored "pg secret" e
        | found password ↦ elim set.1 [
          | some e ↦ stopped stored "pg statefulset" e
          | none ↦
              if ltb 0 set.0
              then record { url = ""; requeue_after = set.0; error = none; connection = stored }
              else elim service_error [
                | some e ↦ stopped stored "pg service" e
                | none ↦ elim headless_error [
                  | some e ↦ stopped stored "pg headless service" e
                  | none ↦
                      let url = database_url cr_name password in
                      let (error, connection) = reconcile_connection answers url stored in
                      elim error [
                        | some e ↦ record {
                          url = "";
                          requeue_after = 0;
                          error = some e;
                          connection = connection;
                        }
                        | none ↦ record {
                          url = url;
                          requeue_after = 0;
                          error = none;
                          connection = connection;
                        }
                      ]
                ]
              ]
        ]
      ]
    ]

-- The URL in the connection Secret, empty without one.
unfoldable pub connection_url : Option (Dict String) → String
connection_url none = ""
connection_url (some keys) = text_at "database-url" keys

-- The pass with the step of the credentials' Secret.
abbrev pub run :
    String
    → Option Error
    → Answers
    → Option (Dict String)
    → ℕ × Option Error
    → Option Error
    → Option Error
    → ConnectionAnswers
    → Option (Dict String)
    → Reconciled
run cr_name scripts_error secret_answers secret set service_error headless_error answers stored =
    reconcile_postgres cr_name scripts_error (reconcile_pg_secret secret_answers secret) set
      service_error headless_error answers stored

created_url : (url : String) → text_at "database-url" (("database-url", url) ∷ []) ≡ url
unfolding text_at lookup
created_url url = refl

inserted_url :
    (url : String) (keys : Dict String)
    → text_at "database-url" (insert "database-url" url keys) ≡ url
unfolding text_at
inserted_url url keys = rw (lookup-insert "database-url" "database-url" url keys, text_at) refl

-- A connection Secret that was reconciled without an error holds the URL.
reconcile_connection-url :
    (answers : ConnectionAnswers) (url : String) (stored : Option (Dict String))
    → (reconcile_connection answers url stored).0 ≡ none
    → connection_url (reconcile_connection answers url stored).1 ≡ url
unfolding reconcile_connection create_connection refresh_connection connection_url
reconcile_connection-url answers url stored h = elim (Option-cases stored) [
  | inl n ↦ ground (arith, n, h, created_url url)
  | inr (keys, k) ↦ ground (
    arith,
    k,
    h,
    created_url url,
    inserted_url url keys,
    eq_iff (text_at "database-url" keys) url,
  )
]

-- A database pass that neither fails nor waits returns the URL with the password that the
-- credentials' Secret holds, and leaves a connection Secret with that URL.
pub connection_follows_password :
    (cr_name : String) (scripts_error : Option Error) (secret_answers : Answers)
    (secret : Option (Dict String)) (set : ℕ × Option Error)
    (service_error headless_error : Option Error) (answers : ConnectionAnswers)
    (stored : Option (Dict String))
    → (run cr_name scripts_error secret_answers secret set service_error headless_error answers
        stored).error
      ≡ none
    → (run cr_name scripts_error secret_answers secret set service_error headless_error answers
        stored).requeue_after
      ≡ 0
    → (password : String) × ((run cr_name scripts_error secret_answers secret set service_error
          headless_error answers stored).url
        ≡ database_url cr_name password)
      × (connection_url
            (run cr_name scripts_error secret_answers secret set service_error headless_error
              answers stored).connection
          ≡ database_url cr_name password)
      × Gives (reconcile_pg_secret secret_answers secret) password
unfolding reconcile_postgres
connection_follows_password cr_name scripts_error secret_answers secret set service_error
      headless_error answers stored fine now =
    elim (Got-cases (reconcile_pg_secret secret_answers secret).password) [
      | inl (e, q) ↦ absurd (ground (arith, q, fine, now))
      | inr (password, q) ↦
          let url = database_url cr_name password in
          (
            password,
            ground (arith, q, fine, now),
            ground (arith, q, fine, now, reconcile_connection-url answers url stored),
            reconcile_pg_secret-IsSettled secret_answers secret password q,
          )
    ]
