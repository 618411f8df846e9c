-- ===== src/Merkletree/Perfect.antt =====
-- What the tree code is to compute. `TreeHash` is the Merkle Tree Hash of RFC 6962, section 2.1, as a
-- relation of a list of leaf hashes and a root; `Perfect k` is a complete tree of 2 ^ k leaves;
-- `Represents` says that a reversed list of nodes holds n * 2 ^ j leaves as n reads in binary.
use certspotter.Prelude.{
  ℕ, zero, suc, ◌+◌, ◌*◌, ◌^◌, ◌≤◌, ◌<◌, ◌≡◌, refl, List, [], ◌∷◌, ◌++◌, Bytes, length,
  length-append, arith, pow_two-suc, pow_two-pos,
}
use certspotter.Merkletree.Hash.{Hash, hash_nothing, hash_children}

module _ (sha256 : Bytes → Hash) where
  -- In `node` the left part has 2 ^ k leaves, the largest power of two below the number of all.
  pub data TreeHash : List Hash → Hash → Type 0 where
    empty : TreeHash [] (hash_nothing sha256)
    leaf : (hash : Hash) → TreeHash (hash ∷ []) hash
    node :
        (k : ℕ) {left right leaves : List Hash} {l r : Hash}
        → leaves ≡ left ++ right
        → length left ≡ 2 ^ k
        → 0 < length right
        → length right ≤ 2 ^ k
        → TreeHash left l
        → TreeHash right r
        → TreeHash leaves (hash_children sha256 l r)

  pub data Perfect : ℕ → List Hash → Hash → Type 0 where
    one : (hash : Hash) → Perfect zero (hash ∷ []) hash
    two :
        {k : ℕ} {left right leaves : List Hash} {l r : Hash}
        → leaves ≡ left ++ right
        → Perfect k left l
        → Perfect k right r
        → Perfect (suc k) leaves (hash_children sha256 l r)

  pub data Represents : ℕ → ℕ → List Hash → List Hash → Type 0 where
    none : {j : ℕ} → Represents j zero [] []
    even :
        {j n m : ℕ} {nodes leaves : List Hash}
        → n ≡ 2 * m
        → Represents (suc j) m nodes leaves
        → Represents j n nodes leaves
    odd :
        {j n m : ℕ} {rest front back leaves : List Hash} {hash : Hash}
        → n ≡ 2 * m + 1
        → leaves ≡ front ++ back
        → Perfect j back hash
        → Represents (suc j) m rest front
        → Represents j n (hash ∷ rest) leaves

module _ (sha256 : Bytes → Hash) where
  pub Perfect-length :
      {k : ℕ} {leaves : List Hash} {h : Hash} → Perfect sha256 k leaves h → length leaves ≡ 2 ^ k
  Perfect-length (one hash) = refl
  Perfect-length (two {k} {left} {right} e p q) =
      rw (e, length-append) (omega (arith, pow_two-suc k, Perfect-length p, Perfect-length q))

  pub Perfect-TreeHash :
      {k : ℕ} {leaves : List Hash} {h : Hash} → Perfect sha256 k leaves h → TreeHash sha256 leaves h
  Perfect-TreeHash (one hash) = TreeHash.leaf hash
  Perfect-TreeHash (two {k} e p q) =
      TreeHash.node k e (Perfect-length p) (omega (arith, Perfect-length q, pow_two-pos k))
        (omega (arith, Perfect-length q)) (Perfect-TreeHash p) (Perfect-TreeHash q)
