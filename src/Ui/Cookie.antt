-- ===== src/Ui/Cookie.antt =====
-- generateCookieSecret and isValidCookieSecret. Bytes are numbers.
use pulse_operator.Prelude.{
  ℕ, zero, suc, ◌+◌, ◌-◌, ◌*◌, ◌/◌, ◌%◌, ◌<◌, Bool, true, false, ◌&&◌, ◌||◌, not, ltb, eqb, List,
  [], ◌∷◌, length, All, if◌then◌else◌, ◌≡◌, refl, arith,
}
use pulse_operator.Cluster.{wrap, Got, found, failed}

-- The standard alphabet of base64.
unfoldable pub base64_digit : ℕ → ℕ
base64_digit d =
    if ltb d 26
    then b'A' + d
    else if ltb d 52
    then b'a' + (d - 26)
    else if ltb d 62
    then b'0' + (d - 52)
    else if eqb d 62
    then b'+'
    else b'/'

-- base64.RawStdEncoding.EncodeToString: no padding.
unfoldable pub raw_base64 : List ℕ → List ℕ
raw_base64 [] = []
raw_base64 (a ∷ []) = base64_digit (a / 4) ∷ base64_digit ((a % 4) * 16) ∷ []
raw_base64 (a ∷ (b ∷ [])) =
    base64_digit (a / 4) ∷ base64_digit ((a % 4) * 16 + b / 16) ∷ base64_digit ((b % 16) * 4) ∷ []
raw_base64 (a ∷ (b ∷ (c ∷ rest))) =
    base64_digit (a / 4)
    ∷ base64_digit ((a % 4) * 16 + b / 16)
    ∷ base64_digit ((b % 16) * 4 + c / 64)
    ∷ base64_digit (c % 64)
    ∷ raw_base64 rest

-- `bytes` is what crypto/rand.Read answers for 24 bytes.
unfoldable pub generate_cookie_secret : Got (List ℕ) → Got (List ℕ)
unfolding raw_base64
generate_cookie_secret (failed e) = failed (wrap "crypto/rand" e)
generate_cookie_secret (found bytes) = found (raw_base64 bytes)

unfoldable pub is_printable : ℕ → Bool
is_printable c = not (ltb c 33 || ltb 126 c)

unfoldable pub all_printable : List ℕ → Bool
unfolding is_printable
all_printable [] = true
all_printable (c ∷ rest) = is_printable c && all_printable rest

unfoldable pub is_valid_cookie_secret : List ℕ → Bool
unfolding all_printable
is_valid_cookie_secret b = if not (eqb (length b) 32) then false else all_printable b

base64_digit-is_printable : (d : ℕ) → d < 64 → is_printable (base64_digit d) ≡ true
unfolding base64_digit is_printable
base64_digit-is_printable d h = ground arith

raw_base64-is_printable :
    (bytes : List ℕ) → All (λ b. b < 256) bytes → all_printable (raw_base64 bytes) ≡ true
unfolding raw_base64 all_printable
raw_base64-is_printable [] h = refl
raw_base64-is_printable (a ∷ []) (h, u) = ground (
  arith,
  base64_digit-is_printable (a / 4) (omega arith),
  base64_digit-is_printable ((a % 4) * 16) (omega arith),
)
raw_base64-is_printable (a ∷ (b ∷ [])) (h, (k, u)) = ground (
  arith,
  base64_digit-is_printable (a / 4) (omega arith),
  base64_digit-is_printable ((a % 4) * 16 + b / 16) (omega arith),
  base64_digit-is_printable ((b % 16) * 4) (omega arith),
)
raw_base64-is_printable (a ∷ (b ∷ (c ∷ rest))) (h, (k, (l, u))) = ground (
  arith,
  base64_digit-is_printable (a / 4) (omega arith),
  base64_digit-is_printable ((a % 4) * 16 + b / 16) (omega arith),
  base64_digit-is_printable ((b % 16) * 4 + c / 64) (omega arith),
  base64_digit-is_printable (c % 64) (omega arith),
  raw_base64-is_printable rest u,
)

length-raw_base64 :
    (n : ℕ) (bytes : List ℕ) → length bytes ≡ 3 * n → length (raw_base64 bytes) ≡ 4 * n
unfolding raw_base64
length-raw_base64 zero [] h = refl
length-raw_base64 zero (a ∷ bs) h = absurd (omega arith)
length-raw_base64 (suc n) [] h = absurd (omega arith)
length-raw_base64 (suc n) (a ∷ []) h = absurd (omega arith)
length-raw_base64 (suc n) (a ∷ (b ∷ [])) h = absurd (omega arith)
length-raw_base64 (suc n) (a ∷ (b ∷ (c ∷ rest))) h =
    let shorter = length-raw_base64 n rest (omega arith) in omega (arith, shorter)

-- A cookie secret that is generated from 24 random bytes passes the check that every later pass makes
-- of it, so that it is not generated again.
pub generated_cookie_is_valid :
    (bytes : List ℕ)
    → length bytes ≡ 24
    → All (λ b. b < 256) bytes
    → (cookie : List ℕ) × (generate_cookie_secret (found bytes) ≡ found cookie)
      × (is_valid_cookie_secret cookie ≡ true)
unfolding generate_cookie_secret is_valid_cookie_secret
generated_cookie_is_valid bytes l small = (
  raw_base64 bytes,
  refl,
  ground (arith, length-raw_base64 8 bytes (omega (arith, l)), raw_base64-is_printable bytes small),
)
