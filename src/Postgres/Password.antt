-- ===== src/Postgres/Password.antt =====
-- generatePassword. Bytes and characters are numbers; `none` is a slice out of range, which panics.
use pulse_operator.Prelude.{
  ℕ, zero, suc, ◌+◌, ◌-◌, ◌*◌, ◌/◌, ◌%◌, ◌≤◌, ◌<◌, Bool, true, ◌&&◌, ◌||◌, leb, ltb, Option, none,
  some, List, [], ◌∷◌, length, All, if◌then◌else◌, ◌≡◌, refl, ap, ◌∙◌, arith,
}
use mathlib.Core.Option
use pulse_operator.Cluster.{Got, found, failed}

-- The digit of a number below 16, and hex.EncodeToString.
unfoldable pub hex_digit : ℕ → ℕ
hex_digit d = if ltb d 10 then b'0' + d else b'a' + (d - 10)

unfoldable pub hex : List ℕ → List ℕ
hex [] = []
hex (b ∷ bs) = hex_digit (b / 16) ∷ hex_digit (b % 16) ∷ hex bs

-- `text[:n]`
unfoldable pub slice_to : ℕ → List ℕ → Option (List ℕ)
slice_to zero text = some []
slice_to (suc n) [] = none
slice_to (suc n) (c ∷ text) = Option.map (λ rest. c ∷ rest) (slice_to n text)

unfoldable pub encode_bytes : ℕ → Got (List ℕ) → Got (Option (List ℕ))
unfolding hex slice_to
encode_bytes n (failed e) = failed e
encode_bytes n (found bytes) = found (slice_to n (hex bytes))

-- `read` is crypto/rand.Read on a slice of that many bytes.
unfoldable pub generate_password : (ℕ → Got (List ℕ)) → ℕ → Got (Option (List ℕ))
unfolding encode_bytes
generate_password read n = encode_bytes n (read ((n + 1) / 2))

unfoldable pub is_hex_digit : ℕ → Bool
is_hex_digit c = (leb b'0' c && leb c b'9') || (leb b'a' c && leb c b'f')

hex_digit-is_hex_digit : (d : ℕ) → d < 16 → is_hex_digit (hex_digit d) ≡ true
unfolding hex_digit is_hex_digit
hex_digit-is_hex_digit d h = ground (arith)

length-hex : (bytes : List ℕ) → length (hex bytes) ≡ 2 * length bytes
unfolding hex
length-hex [] = refl
length-hex (b ∷ bs) = ground (arith, length-hex bs)

hex-All : (bytes : List ℕ) → All (λ b. b < 256) bytes → All (λ c. is_hex_digit c ≡ true) (hex bytes)
unfolding hex
hex-All [] h = tt
hex-All (b ∷ bs) (h, hs) = (
  hex_digit-is_hex_digit (b / 16) (omega arith),
  (hex_digit-is_hex_digit (b % 16) (omega arith), hex-All bs hs),
)

slice_to-total :
    (n : ℕ) (text : List ℕ)
    → n ≤ length text
    → All (λ c. is_hex_digit c ≡ true) text
    → (rest : List ℕ) × (slice_to n text ≡ some rest)
      × (length rest ≡ n)
      × All (λ c. is_hex_digit c ≡ true) rest
unfolding slice_to
slice_to-total zero text h k = ([], refl, refl, tt)
slice_to-total (suc n) [] h k = absurd (omega arith)
slice_to-total (suc n) (c ∷ text) h (k, ks) =
    let (rest, s, l, d) = slice_to-total n text (omega arith) ks in
    (c ∷ rest, rw s refl, ap suc l, (k, d))

-- Where the random source gives as many bytes as it is asked for, the password has exactly n
-- characters, all of them hexadecimal digits; the slice is never out of range.
pub password_of_length :
    (read : ℕ → Got (List ℕ)) (n : ℕ) (bytes : List ℕ)
    → read ((n + 1) / 2) ≡ found bytes
    → length bytes ≡ (n + 1) / 2
    → All (λ b. b < 256) bytes
    → (text : List ℕ) × (generate_password read n ≡ found (some text))
      × (length text ≡ n)
      × All (λ c. is_hex_digit c ≡ true) text
unfolding generate_password encode_bytes
password_of_length read n bytes r l small =
    let (text, s, k, d) =
      slice_to-total n (hex bytes) (rw (length-hex bytes, l) (omega arith)) (hex-All bytes small) in
    (text, ap (encode_bytes n) r ∙ ap found s, k, d)
