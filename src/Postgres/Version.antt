-- ===== src/Postgres/Version.antt =====
-- pgMajorVersion and guardPGMajorVersion.
use pulse_operator.Prelude.{
  ℕ, ◌+◌, ◌*◌, ◌-◌, String, code, Bool, false, ◌&&◌, ◌||◌, leb, ltb, eqb, Option, none, some, List,
  ◌==◌, if◌then◌else◌,
}
use pulse_operator.Host.{Host, Event, warning, record_event}
use pulse_operator.HelmRunner.{cut_prefix}

unfoldable pub is_digit : ℕ → Bool
is_digit c = leb b'0' c && leb c b'9'

-- The value of the digits at the start of a text, on top of the value so far.
unfoldable pub digits_value : ℕ → String → ℕ
digits_value n String.[] = n
digits_value n (String.◌∷◌ c s) =
    let rest = digits_value (n * 10 + (code c - b'0')) s in if is_digit (code c) then rest else n

unfoldable pub starts_with_digit : String → Bool
starts_with_digit String.[] = false
starts_with_digit (String.◌∷◌ c s) = is_digit (code c)

-- [-:](\d+) at the start of a text.
unfoldable pub version_part : String → Option ℕ
version_part String.[] = none
version_part (String.◌∷◌ c s) =
    if (eqb (code c) b'-' || eqb (code c) b':') && starts_with_digit s
    then some (digits_value 0 s)
    else none

-- postgres(?:ql)?[-:](\d+) at the start of a text; what follows "postgres" decides on the "ql".
unfoldable pub match_here : String → Option ℕ
match_here s = elim (cut_prefix "postgres" s) [
  | none ↦ none
  | some rest ↦ elim (cut_prefix "ql" rest) [
    | none ↦ version_part rest
    | some after_ql ↦ version_part after_ql
  ]
]

-- The leftmost match.
unfoldable pub find_version : String → Option ℕ
find_version String.[] = none
find_version (String.◌∷◌ c s) =
    let later = find_version s in
    elim (match_here (String.◌∷◌ c s)) [ some v ↦ some v | none ↦ later ]

-- A number that strconv.Atoi refuses, beyond int64, is 0, like no match.
unfoldable pub pg_major_version : String → ℕ
pg_major_version image = elim (find_version image) [
  | none ↦ 0
  | some v ↦ if ltb v 9223372036854775808 then v else 0
]

unfoldable pub guard_pg_major_version : Host → String → String → List Event → String × List Event
guard_pg_major_version host current desired events =
    let from = pg_major_version current in
    let to = pg_major_version desired in
    if current == "" || (eqb from 0 || (eqb to 0 || eqb from to))
    then (desired, events)
    else (current, record_event host warning "PostgreSQLMajorVersionChangeBlocked" events)
