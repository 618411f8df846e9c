-- ===== src/Merkletree/Hash.antt =====
-- merkletree/hash.go. A hash is a byte list; SHA-256 is the parameter `sha256`.
use certspotter.Prelude.{ℕ, [], ◌∷◌, ◌++◌, Result, ok, err, Bytes, length, ◌==◌, if◌then◌else◌}

abbrev pub hash_len : ℕ
hash_len = 32

abbrev pub Hash : Type 0
Hash = Bytes

pub data HashError : Type 0 where
  wrong_length : ℕ → ℕ → HashError

-- `copy(h[:], hashBytes)` after the length test: the array then holds the bytes.
unfoldable pub unmarshal_binary : Bytes → Result HashError Hash
unmarshal_binary hash_bytes =
    if length hash_bytes == hash_len
    then ok hash_bytes
    else err (wrong_length hash_len (length hash_bytes))

module _ (sha256 : Bytes → Hash) where
  unfoldable pub hash_nothing : Hash
  hash_nothing = sha256 []

  unfoldable pub hash_leaf : Bytes → Hash
  hash_leaf leaf_bytes = sha256 (0x00 ∷ leaf_bytes)

  unfoldable pub hash_children : Hash → Hash → Hash
  hash_children left right = sha256 (0x01 ∷ (left ++ right))
