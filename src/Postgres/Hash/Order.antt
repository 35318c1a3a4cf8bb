-- ===== src/Postgres/Hash/Order.antt =====
-- The hash of a Secret does not depend on the order in which Go goes through the map.
use pulse_operator.Image.Tag.{take}
use Prim.Native.String.{◌++◌}
use pulse_operator.Prelude.{
  text_le-total, text_le_antisymm, text_le_trans, String, List, [], ◌∷◌, Dict, lookup, text_at, ◌≡◌,
  ◌≢◌, refl, ap, ◌∙◌, arith, eq_iff,
}
use pulse_operator.Postgres.Hash.{
  zero_byte, insert_key, sort_keys, keys_of, digest_input, hash_secret_data,
}

-- Two orders of one map: neighbours with different keys change places.
pub data Shuffled : Dict String → Dict String → Type 0 where
  same : (xs : Dict String) → Shuffled xs xs
  swap :
      (k v j w : String) (rest : Dict String)
      → k ≢ j
      → Shuffled ((k, v) ∷ ((j, w) ∷ rest)) ((j, w) ∷ ((k, v) ∷ rest))
  skip :
      (k v : String) {xs ys : Dict String} → Shuffled xs ys → Shuffled ((k, v) ∷ xs) ((k, v) ∷ ys)
  chain : {xs ys zs : Dict String} → Shuffled xs ys → Shuffled ys zs → Shuffled xs zs

insert_key-swap :
    (a b : String) (l : List String) → insert_key a (insert_key b l) ≡ insert_key b (insert_key a l)
unfolding insert_key
insert_key-swap a b [] = ground (arith, text_le-total a b, text_le_antisymm a b)
insert_key-swap a b (j ∷ l) = ground (
  arith,
  text_le-total a b,
  text_le_antisymm a b,
  text_le_trans a b j,
  text_le_trans b a j,
  insert_key-swap a b l,
)

sort_keys-Shuffled :
    {xs ys : Dict String} → Shuffled xs ys → sort_keys (keys_of xs) ≡ sort_keys (keys_of ys)
unfolding sort_keys keys_of
sort_keys-Shuffled (same xs) = refl
sort_keys-Shuffled (swap k v j w rest different) = insert_key-swap k j (sort_keys (keys_of rest))
sort_keys-Shuffled (skip k v s) = ap (insert_key k) (sort_keys-Shuffled s)
sort_keys-Shuffled (chain s t) = sort_keys-Shuffled s ∙ sort_keys-Shuffled t

lookup-Shuffled :
    {xs ys : Dict String} (key : String) → Shuffled xs ys → lookup key xs ≡ lookup key ys
unfolding lookup
lookup-Shuffled key (same xs) = refl
lookup-Shuffled key (swap k v j w rest different) =
    ground (arith, different, eq_iff k key, eq_iff j key)
lookup-Shuffled key (skip k v s) = ground (arith, lookup-Shuffled key s)
lookup-Shuffled key (chain s t) = lookup-Shuffled key s ∙ lookup-Shuffled key t

text_at-Shuffled :
    {xs ys : Dict String} (key : String) → Shuffled xs ys → text_at key xs ≡ text_at key ys
unfolding text_at
text_at-Shuffled key s = ground (arith, lookup-Shuffled key s)

digest_input-Shuffled :
    {xs ys : Dict String} (keys : List String)
    → Shuffled xs ys
    → digest_input xs keys ≡ digest_input ys keys
unfolding digest_input
digest_input-Shuffled [] s = refl
digest_input-Shuffled (key ∷ rest) s =
    let value = text_at-Shuffled key s in
    let later = digest_input-Shuffled rest s in
    λ i. key ++ (zero_byte ++ (value i ++ (zero_byte ++ later i)))

-- The hash is the same in whatever order Go goes through the map.
pub hash_ignores_order :
    (sha256 : String → String) {xs ys : Dict String}
    → Shuffled xs ys
    → hash_secret_data sha256 xs ≡ hash_secret_data sha256 ys
unfolding hash_secret_data
hash_ignores_order sha256 {xs} {ys} s =
    ap (λ keys. take 16 (sha256 (digest_input xs keys))) (sort_keys-Shuffled s)
    ∙ ap (λ text. take 16 (sha256 text)) (digest_input-Shuffled (sort_keys (keys_of ys)) s)
