-- ===== src/Admission/Laws.antt =====
-- Which CR is the cluster's instance.
use mathlib.Core.List.{Memᴰ}
use mathlib.Core.Path.{subst}
use pulse_operator.Prelude.{
  text_le, text_le-total, text_le_trans, String, true, false, ◌<◌, ◌⊎◌, sym, none, some, List, [],
  ◌∷◌, length, All, ◌≡◌, ◌↔◌, ◌≤◌, arith, eq_iff, refl, Bool-cases, inl, inr, ◌≢◌,
}
use pulse_operator.Api.{OpenShiftPulse}
use pulse_operator.Host.{Env}
use pulse_operator.Cluster.{Got, found}
use pulse_operator.Admission.{
  pulse_namespace, is_older, insert_by_age, sort_by_age, live, rejection_reason,
  reject_unless_oldest, wrong_namespace,
}

-- Before the other CR: created earlier, or at the same time with a smaller name.
abbrev pub Precedes : OpenShiftPulse → OpenShiftPulse → Type 0
Precedes a b =
    (a.meta.created < b.meta.created)
    ⊎ ((a.meta.created ≡ b.meta.created) × (text_le b.meta.name a.meta.name ≡ false))

-- Before every other CR of the list.
abbrev pub IsOldest : OpenShiftPulse → List OpenShiftPulse → Type 0
IsOldest a crs = All (λ b. (b.meta.uid ≡ a.meta.uid) ⊎ Precedes a b) crs

Precedes-is_older : (a b : OpenShiftPulse) → Precedes a b → is_older a b ≡ true
unfolding is_older
Precedes-is_older a b (inl earlier) = ground (arith, earlier)
Precedes-is_older a b (inr (tie, smaller)) = ground (arith, tie, smaller)

not_older_trans :
    (a b c : OpenShiftPulse) → is_older b a ≡ false → is_older c b ≡ false → is_older c a ≡ false
unfolding is_older
not_older_trans a b c h k = ground (arith, h, k, text_le_trans a.meta.name b.meta.name c.meta.name)

older_is_not_younger : (a b : OpenShiftPulse) → is_older a b ≡ true → is_older b a ≡ false
unfolding is_older
older_is_not_younger a b h = ground (arith, h, text_le-total b.meta.name a.meta.name)

not_older_self : (a : OpenShiftPulse) → is_older a a ≡ false
unfolding is_older
not_older_self a = ground (arith, text_le-total a.meta.name a.meta.name)

-- No CR of the list is older.
abbrev NoneOlder : OpenShiftPulse → List OpenShiftPulse → Type 0
NoneOlder a crs = All (λ b. is_older b a ≡ false) crs

NoneOlder-trans :
    (a b : OpenShiftPulse) (crs : List OpenShiftPulse)
    → is_older b a ≡ false
    → NoneOlder b crs
    → NoneOlder a crs
NoneOlder-trans a b [] h k = tt
NoneOlder-trans a b (c ∷ crs) h k = (not_older_trans a b c h k.0, NoneOlder-trans a b crs h k.1)

-- The head of the sorted list is a CR of the list, and none is older.
sort_by_age-head :
    (a : OpenShiftPulse) (crs : List OpenShiftPulse)
    → (w : OpenShiftPulse) × (rest : List OpenShiftPulse) × (sort_by_age (a ∷ crs) ≡ w ∷ rest)
      × Memᴰ w (a ∷ crs)
      × NoneOlder w (a ∷ crs)
unfolding sort_by_age insert_by_age
sort_by_age-head a [] = (a, [], refl, Memᴰ.head refl, (not_older_self a, tt))
sort_by_age-head a (b ∷ crs) =
    let (w, rest, e, m, o) = sort_by_age-head b crs in
    elim (Bool-cases (is_older w a)) [
      | inl f ↦
          (w, insert_by_age a rest, rw (e, f) refl, Memᴰ.tail m, (older_is_not_younger w a f, o))
      | inr f ↦ (
        a,
        w ∷ rest,
        rw (e, f) refl,
        Memᴰ.head refl,
        (not_older_self a, NoneOlder-trans a w (b ∷ crs) f o),
      )
    ]

at_Memᴰ :
    (P : OpenShiftPulse → Type 0) {x : OpenShiftPulse} (xs : List OpenShiftPulse)
    → All P xs
    → Memᴰ x xs
    → P x
at_Memᴰ P [] h m = elim m [ ]
at_Memᴰ P (y ∷ ys) h (Memᴰ.head e) = subst P (sym e) h.0
at_Memᴰ P (y ∷ ys) h (Memᴰ.tail m) = at_Memᴰ P ys h.1 m

-- The sort puts the oldest CR first, or one with its UID.
first-IsOldest :
    (w : OpenShiftPulse) (crs : List OpenShiftPulse)
    → Memᴰ w crs
    → IsOldest w crs
    → (head : OpenShiftPulse) × (rest : List OpenShiftPulse) × (sort_by_age crs ≡ head ∷ rest)
      × (head.meta.uid ≡ w.meta.uid)
first-IsOldest w [] m o = elim m [ ]
first-IsOldest w (a ∷ crs) m o =
    let (head, rest, e, there, none_older) = sort_by_age-head a crs in
    elim (at_Memᴰ _ (a ∷ crs) o there) [
      | inl same ↦ (head, rest, e, same)
      | inr before ↦
          absurd (ground (arith, Precedes-is_older w head before, at_Memᴰ _ (a ∷ crs) none_older m))
    ]

reject_unless_oldest-none_iff :
    (ns : String) (pulse w : OpenShiftPulse) (rest : List OpenShiftPulse)
    → (reject_unless_oldest ns pulse (w ∷ rest) ≡ none) ↔ (w.meta.uid ≡ pulse.meta.uid)
unfolding reject_unless_oldest
reject_unless_oldest-none_iff ns pulse w rest = ground (arith, eq_iff w.meta.uid pulse.meta.uid)

-- Let two or more CRs in the namespace be live, and one of them be before all the others: created
-- first, or at the same time with the smallest name. Then it is the cluster's instance, and the only
-- one: whatever CR of the namespace is judged, it is accepted exactly when it has that one's UID.
pub accepted_iff_IsOldest :
    (getenv : Env) (items : List OpenShiftPulse) (w : OpenShiftPulse)
    → 2 ≤ length (live items)
    → Memᴰ w (live items)
    → IsOldest w (live items)
    → (pulse : OpenShiftPulse) → pulse.meta.namespace ≡ pulse_namespace getenv
    → (rejection_reason getenv pulse (found items) ≡ found none) ↔ (w.meta.uid ≡ pulse.meta.uid)
unfolding rejection_reason
accepted_iff_IsOldest getenv items w two m o pulse here =
    let (head, rest, e, same) = first-IsOldest w (live items) m o in
    ground (
      arith,
      here,
      e,
      same,
      eq_iff pulse.meta.namespace (pulse_namespace getenv),
      reject_unless_oldest-none_iff (pulse_namespace getenv) pulse head rest,
    )

-- No CR outside the namespace is accepted, whatever the API answers.
pub rejected_elsewhere :
    (getenv : Env) (pulse : OpenShiftPulse) (listed : Got (List OpenShiftPulse))
    → pulse.meta.namespace ≢ pulse_namespace getenv
    → rejection_reason getenv pulse listed
      ≡ found (some (wrong_namespace (pulse_namespace getenv) pulse.meta.namespace))
unfolding rejection_reason
rejected_elsewhere getenv pulse listed ne =
    ground (arith, eq_iff pulse.meta.namespace (pulse_namespace getenv))
