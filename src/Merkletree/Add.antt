-- ===== src/Merkletree/Add.antt =====
-- `add`: what it builds, when it fails, and the root after any number of leaves.
use certspotter.Prelude.{
  ℕ, ◌+◌, ◌*◌, ◌^◌, ◌≤◌, ◌<◌, ◌≡◌, refl, ap, ◌⊎◌, inl, inr, List, [], ◌∷◌, ◌++◌, Bytes, length,
  length-append, arith, ok, err, lt→ltb, pow_two-suc, reverse,
}
use mathlib.Core.List.{reverse-append, reverse-reverse}
use native.Mathlib.Decide.{dec_lt}
use certspotter.Merkletree.Hash.{Hash}
use certspotter.Merkletree.Bits.{ones_count, add64}
use certspotter.Merkletree.Collapsed.{
  CollapsedTree, TreeError, collapse, add, calculate_root, calculate_num_nodes, max_size,
  offset_guard, already_at_maximum, empty_collapsed_tree,
}
use certspotter.Merkletree.Perfect.{TreeHash, Perfect, Represents, Perfect-length}
use certspotter.Merkletree.Root.{Represents-TreeHash, collapse_loop-carry}

-- A subtree at `offset` may grow to `size`.
abbrev pub Allows : ℕ → ℕ → Type 0
Allows offset size = (offset ≡ 0) ⊎ (size ≤ max_size offset)

pub offset_guard-Allows :
    (offset size : ℕ) (e : TreeError) → Allows offset size → offset_guard offset size e ≡ ok tt
offset_guard-Allows offset size e a = ground arith

pub Allows-cases :
    (offset size : ℕ) → Allows offset size ⊎ ((0 < offset) × (max_size offset < size))
Allows-cases offset size = elim (dec_lt 0 offset) [
  | no z ↦ inl (inl (omega arith))
  | yes pos ↦ elim (dec_lt (max_size offset) size) [
    | no le ↦ inl (inr (omega arith))
    | yes over ↦ inr (pos, over)
  ]
]

pub offset_guard-eq_err :
    (offset size : ℕ) (e : TreeError)
    → 0 < offset
    → max_size offset < size
    → offset_guard offset size e ≡ err e
offset_guard-eq_err offset size e pos over = rw (lt→ltb _ _ pos, lt→ltb _ _ over)

pub add64-small : (a b : ℕ) → a + b < 2 ^ 64 → add64 a b ≡ a + b
add64-small a b h = omega arith

module _ (sha256 : Bytes → Hash) where
  -- The nodes of `tree` are those of the Merkle tree over `leaves`.
  pub record IsTreeOf (tree : CollapsedTree) (leaves : List Hash) : Type 0 where
    pub fits : tree.size < 2 ^ 64
    pub shape : Represents sha256 0 tree.size (reverse tree.nodes) leaves

module _ (sha256 : Bytes → Hash) where
  pub Represents-count :
      {j n : ℕ} {nodes leaves : List Hash}
      → Represents sha256 j n nodes leaves
      → length leaves ≡ n * 2 ^ j
  Represents-count Represents.none = omega arith
  Represents-count (Represents.even {j = j} {m = m} e rep) =
      rw e (omega (arith, Represents-count rep, ap (λ (t : ℕ). m * t) (pow_two-suc j)))
  Represents-count (Represents.odd {j = j} {m = m} e f p rep) =
      rw (e, f, length-append)
        (omega (
          arith,
          Represents-count rep,
          Perfect-length sha256 p,
          ap (λ (t : ℕ). m * t) (pow_two-suc j),
        ))

  pub size-eq-length :
      (tree : CollapsedTree) (leaves : List Hash)
      → IsTreeOf sha256 tree leaves
      → tree.size ≡ length leaves
  size-eq-length tree leaves t = omega (arith, Represents-count t.shape)

  -- The root of such a tree is the Merkle Tree Hash of its leaves.
  pub calculate_root-TreeHash :
      (tree : CollapsedTree) (leaves : List Hash)
      → IsTreeOf sha256 tree leaves
      → TreeHash sha256 leaves (calculate_root sha256 tree)
  unfolding calculate_root
  calculate_root-TreeHash tree leaves t = Represents-TreeHash sha256 t.shape

  pub IsTreeOf-empty : IsTreeOf sha256 empty_collapsed_tree []
  IsTreeOf-empty = record { fits = omega arith; shape = Represents.none }

  collapse-push :
      (tree : CollapsedTree) (h : Hash) (leaves : List Hash)
      → IsTreeOf sha256 tree leaves
      → tree.size + 1 < 2 ^ 64
      → (grown : CollapsedTree) × (collapse sha256
            (record tree { nodes = tree.nodes ++ (h ∷ []); size = tree.size + 1 })
          ≡ ok grown)
        × IsTreeOf sha256 grown (leaves ++ (h ∷ []))
        × (grown.size ≡ tree.size + 1)
        × (grown.offset ≡ tree.offset)
  unfolding collapse calculate_num_nodes
  collapse-push tree h leaves t fits =
      let (nodes', run, rep) =
        collapse_loop-carry sha256 64 (ones_count 64 (tree.size + 1)) (h ∷ []) h t.shape
          (Perfect.one h) fits refl in
      (
        record tree { nodes = reverse nodes'; size = tree.size + 1 },
        rw (reverse-append, run),
        record { fits = fits; shape = rw (reverse-reverse nodes') rep },
        refl,
        refl,
      )

  -- If the size stays below 2 ^ 64 and within the bound of the offset, `add` succeeds, and the tree is
  -- that of the leaves and one more, at the same offset.
  pub add-IsTreeOf :
      (tree : CollapsedTree) (h : Hash) (leaves : List Hash)
      → IsTreeOf sha256 tree leaves
      → tree.size + 1 < 2 ^ 64
      → Allows tree.offset (tree.size + 1)
      → (grown : CollapsedTree) × (add sha256 tree h ≡ ok grown)
        × IsTreeOf sha256 grown (leaves ++ (h ∷ []))
        × (grown.size ≡ tree.size + 1)
        × (grown.offset ≡ tree.offset)
  unfolding add
  add-IsTreeOf tree h leaves t fits a =
      rw
        (
          add64-small tree.size 1 fits,
          offset_guard-Allows tree.offset (tree.size + 1) already_at_maximum a,
        )
        (collapse-push tree h leaves t fits)
