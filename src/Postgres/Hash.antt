-- ===== src/Postgres/Hash.antt =====
-- hashSecretData: the hash that rolls the pods out when the credentials change.
pub mod Order
use Prim.Native.String
use Prim.Native.String.{◌++◌}
use pulse_operator.Prelude.{
  text_le, String, code, Bool, true, false, ltb, List, [], ◌∷◌, Dict, text_at, if◌then◌else◌,
}
use pulse_operator.Image.Tag.{take}
use pulse_operator.Cluster.{Got, found, failed}

unfoldable pub insert_key : String → List String → List String
insert_key key [] = key ∷ []
insert_key key (first ∷ rest) =
    let later = insert_key key rest in
    if text_le key first then key ∷ (first ∷ rest) else first ∷ later

unfoldable pub sort_keys : List String → List String
unfolding insert_key
sort_keys [] = []
sort_keys (key ∷ rest) = insert_key key (sort_keys rest)

-- The keys in the order in which the map is gone through.
unfoldable pub keys_of : Dict String → List String
keys_of [] = []
keys_of ((key, value) ∷ rest) = key ∷ keys_of rest

abbrev pub zero_byte : String
zero_byte = "\0"

-- What is written to the digest.
unfoldable pub digest_input : Dict String → List String → String
digest_input entries [] = ""
digest_input entries (key ∷ rest) =
    key ++ (zero_byte ++ (text_at key entries ++ (zero_byte ++ digest_input entries rest)))

-- `sha256` is the digest in hexadecimal digits.
unfoldable pub hash_secret_data : (String → String) → Dict String → String
unfolding sort_keys keys_of digest_input
hash_secret_data sha256 entries =
    take 16 (sha256 (digest_input entries (sort_keys (keys_of entries))))

-- pgCredentialHash: that of the credentials' Secret, or the empty text when it cannot be read.
unfoldable pub pg_credential_hash : (String → String) → Got (Dict String) → String
pg_credential_hash sha256 (failed e) = ""
pg_credential_hash sha256 (found entries) = hash_secret_data sha256 entries
