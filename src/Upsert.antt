-- ===== src/Upsert.antt =====
-- How the operator writes an object: controllerutil.CreateOrUpdate, by its documentation, and the
-- same done by hand with Get, Create and Update. What the calls answer is an argument.
use pulse_operator.Prelude.{
  String, Option, none, some, if◌then◌else◌, ◌≡◌, refl, sym, ap, ◌∙◌, ◌⊎◌, inl, inr, arith,
  Bool-cases, Option-cases,
}
use pulse_operator.Cluster.{Error, wrap, is_not_found}

-- The errors of the read (without one it finds the object that there is), of setting the controller
-- reference, and of the create or the update.
pub record UpsertAnswers : Type 0 where
  pub read_error : Option Error
  pub owner_error : Option Error
  pub write_error : Option Error

-- The error, and the object that there is afterwards.
abbrev pub Upserted : Type 0 → Type 0
Upserted A = Option Error × Option A

-- A write whose errors, in their order, leave what there is.
unfoldable pub write_unless : {A : Type 0} → Option Error → Option Error → A → Option A → Upserted A
write_unless (some e) write_error wanted stored = (some e, stored)
write_unless none (some e) wanted stored = (some e, stored)
write_unless none none wanted stored = (none, some wanted)

-- `missing` is what the pass does when nothing is found, `there` when an object is.
unfoldable pub after_read :
    {A : Type 0} → Option Error → Upserted A → (A → Upserted A) → Option A → Upserted A
after_read none missing there none = missing
after_read none missing there (some old) = there old
after_read (some e) missing there stored = if is_not_found e then missing else (some e, stored)

-- CreateOrUpdate with the change of its mutate function, which sets the controller reference too.
unfoldable pub create_or_update : {A : Type 0} → UpsertAnswers → A → (A → A) → Option A → Upserted A
unfolding write_unless after_read
create_or_update answers blank change stored =
    after_read answers.read_error
      (write_unless answers.owner_error answers.write_error (change blank) stored)
      (λ old. write_unless answers.owner_error answers.write_error (change old) stored) stored

-- By hand: the controller reference is set on the desired object first.
unfoldable pub create_or_change : {A : Type 0} → UpsertAnswers → A → (A → A) → Option A → Upserted A
unfolding write_unless after_read
create_or_change answers desired change stored = elim answers.owner_error [
  | some e ↦ (some e, stored)
  | none ↦
      after_read answers.read_error (write_unless none answers.write_error desired stored)
        (λ old. write_unless none answers.write_error (change old) stored) stored
]

-- `if err := step; err != nil { return fmt.Errorf(text, err) }`
abbrev pub stop_or : String → Option Error → Option Error → Option Error
stop_or text none next = next
stop_or text (some e) next = some (wrap text e)

module _ {A : Type 0} where
  pub write_unless-ok :
      (first second : Option Error) (wanted : A) (stored : Option A)
      → (write_unless first second wanted stored).0 ≡ none
      → (write_unless first second wanted stored).1 ≡ some wanted
  unfolding write_unless
  write_unless-ok (some e) second wanted stored h = absurd (ground (arith, h))
  write_unless-ok none (some e) wanted stored h = absurd (ground (arith, h))
  write_unless-ok none none wanted stored h = refl

  pub write_unless-failed :
      (first second : Option Error) (wanted : A) (stored : Option A) {e : Error}
      → (write_unless first second wanted stored).0 ≡ some e
      → (write_unless first second wanted stored).1 ≡ stored
  unfolding write_unless
  write_unless-failed (some e) second wanted stored h = refl
  write_unless-failed none (some e) wanted stored h = refl
  write_unless-failed none none wanted stored h = absurd (ground (arith, h))

  -- A pass goes on as if nothing were there, or with the object that there is, or fails.
  after_read-cases :
      (read : Option Error) (missing : Upserted A) (there : A → Upserted A) (stored : Option A)
      → (after_read read missing there stored ≡ missing)
        ⊎ (((old : A) × (stored ≡ some old) × (after_read read missing there stored ≡ there old))
            ⊎ ((e : Error) × (after_read read missing there stored ≡ (some e, stored))))
  unfolding after_read
  after_read-cases none missing there none = inl refl
  after_read-cases none missing there (some old) = inr (inl (old, refl, refl))
  after_read-cases (some e) missing there stored = elim (Bool-cases (is_not_found e)) [
    | inl gone ↦ inl (rw gone refl)
    | inr other ↦ inr (inr (e, rw other refl))
  ]

  -- Without an error, what is stored afterwards is the desired object or the changed one.
  module _ (P : A → Type 0) (answers : UpsertAnswers) (stored : Option A) where
    after_read-ok :
        (owner : Option Error) (desired : A) (change : A → A)
        → P desired
        → ((old : A) → P (change old))
        → (after_read answers.read_error
            (write_unless owner answers.write_error desired stored)
            (λ old. write_unless owner answers.write_error (change old) stored)
            stored).0
          ≡ none
        → (after : A) × ((after_read answers.read_error
              (write_unless owner answers.write_error desired stored)
              (λ old. write_unless owner answers.write_error (change old) stored)
              stored).1
            ≡ some after)
          × P after
    after_read-ok owner desired change p q h =
        let write = answers.write_error in
        elim (after_read-cases answers.read_error (write_unless owner write desired stored)
          (λ old. write_unless owner write (change old) stored) stored) [
            | inl m ↦ (
              desired,
              ap (λ r. r.1) m
                  ∙ write_unless-ok owner write desired stored (ap (λ r. r.0) (sym m) ∙ h),
              p,
            )
            | inr (inl (old, there, m)) ↦ (
              change old,
              ap (λ r. r.1) m
                  ∙ write_unless-ok owner write (change old) stored (ap (λ r. r.0) (sym m) ∙ h),
              q old,
            )
            | inr (inr (e, m)) ↦ absurd (ground (arith, ap (λ r. r.0) m, h))
          ]

    pub create_or_update-ok :
        (blank : A) (change : A → A)
        → ((old : A) → P (change old))
        → (create_or_update answers blank change stored).0 ≡ none
        → (after : A) × ((create_or_update answers blank change stored).1 ≡ some after) × P after
    unfolding create_or_update
    create_or_update-ok blank change p h =
        after_read-ok answers.owner_error (change blank) change (p blank) p h

    pub create_or_change-ok :
        (desired : A) (change : A → A)
        → P desired
        → ((old : A) → P (change old))
        → (create_or_change answers desired change stored).0 ≡ none
        → (after : A) × ((create_or_change answers desired change stored).1 ≡ some after) × P after
    unfolding create_or_change
    create_or_change-ok desired change p q h = elim (Option-cases answers.owner_error) [
      | inl fine ↦ rw fine (after_read-ok none desired change p q (rw fine at h))
      | inr (e, bad) ↦ absurd (ground (arith, bad, h))
    ]
