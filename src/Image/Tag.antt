-- ===== src/Image/Tag.antt =====
-- imageTag (skew.go) and imageVersionLabel (openshiftpulse_controller.go). Positions count
-- characters here and bytes in Go; they are only compared with each other and cut at, and the
-- characters searched for are single bytes, so both read the same text.
pub mod Laws
use Prim.Native.String
use Prim.Native.String.{◌++◌}
use mathlib.Core.Option
use pulse_operator.Prelude.{
  ℕ, zero, suc, String, Char, code, Bool, true, false, ◌||◌, Option, none, some, ltb, leb, eqb,
  ◌==◌, if◌then◌else◌,
}

-- `strings.Contains(s, c)` for a one-character text.
unfoldable pub contains : ℕ → String → Bool
contains c String.[] = false
contains c (String.◌∷◌ d s) = eqb (code d) c || contains c s

-- `strings.Index(s, c)`; `none` is -1.
unfoldable pub index : ℕ → String → Option ℕ
index c String.[] = none
index c (String.◌∷◌ d s) = if eqb (code d) c then some 0 else Option.map suc (index c s)

-- `strings.LastIndex(s, c)`; `none` is -1.
unfoldable pub last_index : ℕ → String → Option ℕ
last_index c String.[] = none
last_index c (String.◌∷◌ d s) = elim (last_index c s) [
  | some i ↦ some (suc i)
  | none ↦ if eqb (code d) c then some 0 else none
]

-- `s[n:]` and `s[:n]`.
unfoldable pub drop : ℕ → String → String
drop zero s = s
drop (suc n) String.[] = String.[]
drop (suc n) (String.◌∷◌ c s) = drop n s

unfoldable pub take : ℕ → String → String
take zero s = String.[]
take (suc n) String.[] = String.[]
take (suc n) (String.◌∷◌ c s) = String.◌∷◌ c (take n s)

unfoldable pub length : String → ℕ
length String.[] = 0
length (String.◌∷◌ c s) = suc (length s)

-- `lastColon <= lastSlash`, where -1 stands for no such character.
unfoldable pub le_position : Option ℕ → Option ℕ → Bool
le_position none slash = true
le_position (some colon) none = false
le_position (some colon) (some slash) = leb colon slash

-- `image[lastColon+1:]`
unfoldable pub after : Option ℕ → String → String
unfolding drop
after none s = s
after (some i) s = drop (suc i) s

unfoldable pub image_tag : String → String
unfolding contains last_index le_position after
image_tag image =
    if image == ""
    then ""
    else if contains b'@' image
    then ""
    else let colon = last_index b':' image in
      if le_position colon (last_index b'/' image) then "" else after colon image

-- The digest's label: `algo:` and twelve digits when the digest is longer, else the whole of it.
unfoldable pub digest_label : String → String
unfolding index drop take length
digest_label digest = elim (index b':' digest) [
  | none ↦ digest
  | some i ↦
      let hex = drop (suc i) digest in
      if ltb 12 (length hex) then take i digest ++ (":" ++ take 12 hex) else digest
]

unfoldable pub image_version_label : String → String
unfolding index drop digest_label image_tag
image_version_label image = elim (index b'@' image) [
  | some at ↦ digest_label (drop (suc at) image)
  | none ↦ image_tag image
]
