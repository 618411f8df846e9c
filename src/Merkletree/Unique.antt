-- ===== src/Merkletree/Unique.antt =====
-- The Merkle Tree Hash binds the leaves: one list has one root, and two lists of one length with the
-- same root give a collision of SHA-256.
use certspotter.Prelude.{
  ℕ, ◌+◌, ◌^◌, ◌≤◌, ◌<◌, ◌≡◌, ◌≢◌, refl, sym, ap, ◌∙◌, ◌⊎◌, inl, inr, List, ◌∷◌, ◌++◌, Bytes, All,
  Bool-cases, length, length-append, append-injective, All-append, bytes_equal, bytes_equal_iff,
  arith, pow_two_gap, pow_two-pos,
}
use mathlib.Core.Path.{ap₂}
use native.Mathlib.Decide.{dec_lt}
use certspotter.Merkletree.Hash.{Hash, hash_len, hash_children, hash_nothing}
use certspotter.Merkletree.Collapsed.{CollapsedTree, calculate_root}
use certspotter.Merkletree.Perfect.{TreeHash}
use certspotter.Merkletree.Add.{IsTreeOf, calculate_root-TreeHash, size-eq-length}

-- A split at a power of two that leaves no more behind it is the only one of its length.
split_unique :
    (k k' a b : ℕ)
    → 0 < a
    → a ≤ 2 ^ k
    → 0 < b
    → b ≤ 2 ^ k'
    → 2 ^ k + a ≡ 2 ^ k' + b
    → 2 ^ k ≡ 2 ^ k'
split_unique k k' a b pa la pb lb e = elim (dec_lt k k') [
  | yes p ↦ absurd (omega (arith, pow_two_gap k k' p))
  | no p ↦ elim (dec_lt k' k) [
    | yes q ↦ absurd (omega (arith, pow_two_gap k' k q))
    | no q ↦ let s : k ≡ k' = omega arith in rw s
  ]
]

node_length :
    (k : ℕ) (left right : List Hash) {leaves : List Hash}
    → leaves ≡ left ++ right
    → length left ≡ 2 ^ k
    → 0 < length right
    → 1 < length leaves
node_length k left right e n p = rw (e, length-append) (omega (arith, pow_two-pos k))

-- The parts of two nodes over lists of one length have one length.
node_split :
    (k k' : ℕ) (left right left' right' : List Hash) {ls ls' : List Hash}
    → ls ≡ left ++ right
    → ls' ≡ left' ++ right'
    → length left ≡ 2 ^ k
    → length left' ≡ 2 ^ k'
    → 0 < length right
    → length right ≤ 2 ^ k
    → 0 < length right'
    → length right' ≤ 2 ^ k'
    → length ls ≡ length ls'
    → (length left ≡ length left') × (length right ≡ length right')
node_split k k' left right left' right' f f' n n' p q p' q' e =
    let total : length left + length right ≡ length left' + length right' =
      rw (f, f', length-append, length-append) at e in
    let same : 2 ^ k ≡ 2 ^ k' =
      split_unique k k' (length right) (length right') p q p' q' (omega arith) in
    (omega arith, omega arith)

module _ (sha256 : Bytes → Hash) where
  -- A list of leaves has one Merkle Tree Hash.
  pub TreeHash-unique :
      {ls ls' : List Hash} {a b : Hash}
      → TreeHash sha256 ls a
      → TreeHash sha256 ls' b
      → ls ≡ ls'
      → a ≡ b
  TreeHash-unique TreeHash.empty TreeHash.empty e = refl
  TreeHash-unique TreeHash.empty (TreeHash.leaf h) e = cc
  TreeHash-unique TreeHash.empty (TreeHash.node k {left} {right} f n p q t u) e =
      absurd (omega (arith, ap length e, node_length k left right f n p))
  TreeHash-unique (TreeHash.leaf h) TreeHash.empty e = cc
  TreeHash-unique (TreeHash.leaf h) (TreeHash.leaf h') e = cc
  TreeHash-unique (TreeHash.leaf h) (TreeHash.node k {left} {right} f n p q t u) e =
      absurd (omega (arith, ap length e, node_length k left right f n p))
  TreeHash-unique (TreeHash.node k {left} {right} f n p q t u) TreeHash.empty e =
      absurd (omega (arith, ap length e, node_length k left right f n p))
  TreeHash-unique (TreeHash.node k {left} {right} f n p q t u) (TreeHash.leaf h) e =
      absurd (omega (arith, ap length e, node_length k left right f n p))
  TreeHash-unique (TreeHash.node k {left = left} {right = right} f n p q t u)
        (TreeHash.node k' {left = left'} {right = right'} f' n' p' q' t' u') e =
      let parts = node_split k k' left right left' right' f f' n n' p q p' q' (ap length e) in
      let same = append-injective left left' right right' (sym f ∙ e ∙ f') parts.0 in
      ap₂ (hash_children sha256) (TreeHash-unique t t' same.0) (TreeHash-unique u u' same.1)

module _ (sha256 : Bytes → Hash) where
  abbrev pub Collision : Type 0
  Collision = (x y : Bytes) × (x ≢ y) × (sha256 x ≡ sha256 y)

  node_binds :
      {left right left' right' ls ls' : List Hash} {l r l' r' : Hash}
      → ls ≡ left ++ right
      → ls' ≡ left' ++ right'
      → ((l ≡ l') × (r ≡ r')) ⊎ Collision
      → (l ≡ l' → (left ≡ left') ⊎ Collision)
      → (r ≡ r' → (right ≡ right') ⊎ Collision)
      → (ls ≡ ls') ⊎ Collision
  node_binds f f' (inr c) below above = inr c
  node_binds f f' (inl (p, q)) below above = elim (below p) [
    | inr c ↦ inr c
    | inl x ↦ elim (above q) [ inr c ↦ inr c | inl y ↦ inl (cc) ]
  ]

  hash_children_injective :
      (l r l' r' : Hash)
      → length l ≡ length l'
      → hash_children sha256 l r ≡ hash_children sha256 l' r'
      → ((l ≡ l') × (r ≡ r')) ⊎ Collision
  unfolding hash_children
  hash_children_injective l r l' r' n e =
      elim (Bool-cases (bytes_equal (0x01 ∷ (l ++ r)) (0x01 ∷ (l' ++ r')))) [
        | inl same ↦
            inl (append-injective l l' r r' ((bytes_equal_iff (l ++ r) (l' ++ r')).0 same) n)
        | inr other ↦ inr (
          0x01 ∷ (l ++ r),
          0x01 ∷ (l' ++ r'),
          λ p. cc (other, (bytes_equal_iff (0x01 ∷ (l ++ r)) (0x01 ∷ (l' ++ r'))).1 p),
          e,
        )
      ]

module _ (sha256 : Bytes → Hash) (digest : (x : Bytes) → length (sha256 x) ≡ hash_len) where
  TreeHash-length :
      {ls : List Hash} {a : Hash}
      → TreeHash sha256 ls a
      → All (λ x. length x ≡ hash_len) ls
      → length a ≡ hash_len
  unfolding hash_children hash_nothing
  TreeHash-length TreeHash.empty h = digest _
  TreeHash-length (TreeHash.leaf _) h = h.0
  TreeHash-length (TreeHash.node k f n p q t u) h = digest _

  pub TreeHash-binds :
      {ls ls' : List Hash} {a b : Hash}
      → TreeHash sha256 ls a
      → TreeHash sha256 ls' b
      → All (λ x. length x ≡ hash_len) ls
      → All (λ x. length x ≡ hash_len) ls'
      → length ls ≡ length ls'
      → a ≡ b
      → (ls ≡ ls') ⊎ Collision sha256
  TreeHash-binds TreeHash.empty TreeHash.empty w w' e r = inl refl
  TreeHash-binds TreeHash.empty (TreeHash.leaf h) w w' e r = absurd (omega arith)
  TreeHash-binds TreeHash.empty (TreeHash.node k {left} {right} f n p q t u) w w' e r =
      absurd (omega (arith, node_length k left right f n p))
  TreeHash-binds (TreeHash.leaf h) TreeHash.empty w w' e r = absurd (omega arith)
  TreeHash-binds (TreeHash.leaf h) (TreeHash.leaf h') w w' e r = inl (rw r)
  TreeHash-binds (TreeHash.leaf h) (TreeHash.node k {left} {right} f n p q t u) w w' e r =
      absurd (omega (arith, node_length k left right f n p))
  TreeHash-binds (TreeHash.node k {left} {right} f n p q t u) TreeHash.empty w w' e r =
      absurd (omega (arith, node_length k left right f n p))
  TreeHash-binds (TreeHash.node k {left} {right} f n p q t u) (TreeHash.leaf h) w w' e r =
      absurd (omega (arith, node_length k left right f n p))
  TreeHash-binds (TreeHash.node k {left = left} {right = right} {l = l} {r = r} f n p q t u)
        (TreeHash.node k' {left = left'} {right = right'} {l = l'} {r = r'} f' n' p' q' t' u') w w'
        e same =
      let parts = node_split k k' left right left' right' f f' n n' p q p' q' e in
      let (wl, wr) = All-append (λ x. length x ≡ hash_len) left right (rw f at w) in
      let (wl', wr') = All-append (λ x. length x ≡ hash_len) left' right' (rw f' at w') in
      node_binds sha256 f f'
        (hash_children_injective sha256 l r l' r'
          (TreeHash-length t wl ∙ sym (TreeHash-length t' wl')) same)
        (TreeHash-binds t t' wl wl' parts.0) (TreeHash-binds u u' wr wr' parts.1)

  -- Two collapsed trees of one size with one root hold the same leaves, or SHA-256 has a collision.
  pub calculate_root_binds :
      (tree tree' : CollapsedTree) (ls ls' : List Hash)
      → IsTreeOf sha256 tree ls
      → IsTreeOf sha256 tree' ls'
      → All (λ x. length x ≡ hash_len) ls
      → All (λ x. length x ≡ hash_len) ls'
      → tree.size ≡ tree'.size
      → calculate_root sha256 tree ≡ calculate_root sha256 tree'
      → (ls ≡ ls') ⊎ Collision sha256
  calculate_root_binds tree tree' ls ls' t t' w w' e r =
      TreeHash-binds (calculate_root-TreeHash sha256 tree ls t)
        (calculate_root-TreeHash sha256 tree' ls' t') w w'
        (sym (size-eq-length sha256 tree ls t) ∙ e ∙ size-eq-length sha256 tree' ls' t') r
