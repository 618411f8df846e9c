-- ===== src/Merkletree/Append.antt =====
-- `append`: a tree joined with the subtree that follows it is the tree over the leaves of both.
use certspotter.Prelude.{
  ℕ, zero, suc, ◌+◌, ◌*◌, ◌^◌, ◌<◌, ◌≡◌, refl, sym, ap, ◌∙◌, inl, inr, List, [], ◌∷◌, ◌++◌, Bytes,
  length, arith, ok, append_assoc, append-nil, pow_two-suc, pow_two_gap, pow_two-pos, reverse,
  ==_refl,
}
use mathlib.Core.List.{reverse-append, reverse-reverse}
use native.Mathlib.Decide.{dec_lt}
use certspotter.Merkletree.Hash.{Hash}
use certspotter.Merkletree.Bits.{
  ones_count, ones_count-double, trailing_zeros, trailing_zeros-double, trailing_zeros-double_one,
  trailing_zeros-lt, half_below,
}
use certspotter.Merkletree.Collapsed.{
  CollapsedTree, collapse, collapse_nodes, append, calculate_num_nodes, max_size,
}
use certspotter.Merkletree.Perfect.{Perfect, Represents}
use certspotter.Merkletree.Root.{collapse_loop-carry, collapse_loop-stop, Represents-length}
use certspotter.Merkletree.Add.{IsTreeOf, Allows, offset_guard-Allows, add64-small}

double_power :
    (width n k m : ℕ)
    → n ≡ 2 * k
    → m ≡ 2 ^ trailing_zeros (suc width) n
    → m ≡ 2 * 2 ^ trailing_zeros width k
double_power width n k m e s = rw (e, trailing_zeros-double, pow_two-suc) at s

module _ (sha256 : Bytes → Hash) where
  Represents-nil :
      {j n : ℕ} {nodes leaves : List Hash}
      → Represents sha256 j n nodes leaves
      → n ≡ 0
      → (nodes ≡ []) × (leaves ≡ [])
  Represents-nil Represents.none e = (refl, refl)
  Represents-nil (Represents.even {m = m} f rep) e = Represents-nil rep (omega arith)
  Represents-nil (Represents.odd f g p rep) e = absurd (omega arith)

  Represents-one :
      {j n : ℕ} {nodes leaves : List Hash}
      → Represents sha256 j n nodes leaves
      → n ≡ 1
      → (h : Hash) × (nodes ≡ h ∷ []) × Perfect sha256 j leaves h
  Represents-one Represents.none e = absurd (omega arith)
  Represents-one (Represents.even {m = m} f rep) e = absurd (omega arith)
  Represents-one (Represents.odd {back = back} {hash = hash} f g p rep) e =
      let nil = Represents-nil rep (omega arith) in
      (hash, ap (λ (r : List Hash). hash ∷ r) nil.0, rw (g, nil.1) p)

  Represents-beside_nil :
      {j n m : ℕ} {nodes nodes' leaves leaves' : List Hash}
      → Represents sha256 j n nodes leaves
      → Represents sha256 j m nodes' leaves'
      → m ≡ 0
      → Represents sha256 j (n + m) (nodes' ++ nodes) (leaves ++ leaves')
  Represents-beside_nil {n = n} {m = m} rep rep' z =
      let nil = Represents-nil rep' z in
      let e : n + m ≡ n = omega arith in rw (nil.0, nil.1, append-nil, e) rep

  -- The ones of `m` lie below the lowest one of `n`: the nodes stand side by side.
  Represents-beside :
      (width : ℕ) {j n m : ℕ} {nodes nodes' leaves leaves' : List Hash}
      → Represents sha256 j n nodes leaves
      → Represents sha256 j m nodes' leaves'
      → n < 2 ^ width
      → m < 2 ^ trailing_zeros width n
      → Represents sha256 j (n + m) (nodes' ++ nodes) (leaves ++ leaves')
  Represents-beside width {m = m} Represents.none rep' f s =
      rw append-nil (let e : 0 + m ≡ m = omega arith in rw e rep')
  Represents-beside zero (Represents.even e rep) rep' f s =
      Represents-beside_nil (Represents.even e rep) rep' (unfold trailing_zeros in omega arith)
  Represents-beside (suc width) (Represents.even e rep) Represents.none f s =
      Represents-beside_nil (Represents.even e rep) Represents.none refl
  Represents-beside (suc width) {n = n} (Represents.even {m = k} e rep)
        (Represents.even {n = m} {m = m'} e' rep') f s =
      Represents.even {m = k + m'} (omega arith) (
        Represents-beside width rep rep' (omega (arith, pow_two-suc width))
          (half_below width n k m m' e s (omega arith)))
  Represents-beside (suc width) {n = n} (Represents.even {m = k} e rep)
        (Represents.odd {n = m} {m = m'} {front = front} {back = back} e' g p rep') f s =
      Represents.odd {m = k + m'} (omega arith) (rw g (sym (append_assoc _ front back))) p (
        Represents-beside width rep rep' (omega (arith, pow_two-suc width))
          (half_below width n k m m' e s (omega arith)))
  Represents-beside zero (Represents.odd e g p rep) rep' f s = absurd (omega arith)
  Represents-beside (suc width) {n = n} (Represents.odd {m = m'} e g p rep) rep' f s =
      Represents-beside_nil (Represents.odd e g p rep) rep' (
        let z : trailing_zeros (suc width) n ≡ 0 = rw e (trailing_zeros-double_one width m') in
        omega (arith, rw z at s))

  -- The loop on nodes of which it wants all.
  collapse_nodes-stop :
      (target : ℕ) (nodes : List Hash)
      → target ≡ length nodes
      → collapse_nodes sha256 target nodes ≡ ok nodes
  collapse_nodes-stop target [] e = refl
  collapse_nodes-stop target (h ∷ nodes) e = collapse_loop-stop sha256 target h nodes e

  -- As many leaves as the lowest one of `n` counts: one node, which carries.
  collapse_nodes-carry :
      (width target : ℕ) {j n m : ℕ} {nodes nodes' leaves leaves' : List Hash}
      → Represents sha256 j n nodes leaves
      → Represents sha256 j m nodes' leaves'
      → 0 < n
      → n + m < 2 ^ width
      → m ≡ 2 ^ trailing_zeros width n
      → target ≡ ones_count width (n + m)
      → (joined : List Hash) × (collapse_nodes sha256 target (nodes' ++ nodes) ≡ ok joined)
        × Represents sha256 j (n + m) joined (leaves ++ leaves')
  collapse_nodes-carry width target Represents.none rep' pos f s t = absurd (omega arith)
  collapse_nodes-carry zero target (Represents.even e rep) rep' pos f s t = absurd (omega arith)
  collapse_nodes-carry zero target (Represents.odd e g p rep) rep' pos f s t = absurd (omega arith)
  collapse_nodes-carry (suc width) target {n = n} {m = m} (Represents.odd {m = k} e g p rep) rep'
        pos f s t =
      let z : trailing_zeros (suc width) n ≡ 0 = rw e (trailing_zeros-double_one width k) in
      let m_one : m ≡ 1 = rw z at s in
      let (h, only, whole) = Represents-one rep' m_one in
      rw (only, m_one)
        (collapse_loop-carry sha256 (suc width) target _ h (Represents.odd {m = k} e g p rep) whole
          (omega arith) (rw m_one at t))
  collapse_nodes-carry (suc width) target {n = n} (Represents.even e rep) Represents.none pos f s
        t =
      absurd (omega (arith, pow_two-pos (trailing_zeros (suc width) n)))
  collapse_nodes-carry (suc width) target {n = n} (Represents.even {m = k} e rep)
        (Represents.odd {n = m} {m = m'} e' g p rep') pos f s t =
      absurd (omega (arith, double_power width n k m e s))
  collapse_nodes-carry (suc width) target {n = n} (Represents.even {m = k} e rep)
        (Represents.even {n = m} {m = m'} e' rep') pos f s t =
      let next : n + m ≡ 2 * (k + m') = omega arith in
      let (joined, run, rep'') =
        collapse_nodes-carry width target rep rep' (omega arith) (omega (arith, pow_two-suc width))
          (omega (arith, double_power width n k m e s))
          ((rw next at t) ∙ ones_count-double width (k + m')) in
      (joined, run, Represents.even {m = k + m'} next rep'')

max_size_lem : (n : ℕ) → 0 < n → n < 2 ^ 64 → max_size n ≡ 2 ^ trailing_zeros 64 n
unfolding max_size
max_size_lem n pos f =
    omega (arith, pow_two_gap (trailing_zeros 64 n) 64 (trailing_zeros-lt 64 n pos f))

nonzero : (n m : ℕ) → Allows n m → n + m < 2 ^ 64 → ¬ (m < 2 ^ trailing_zeros 64 n) → 0 < n
nonzero zero m a f above = absurd (unfold trailing_zeros in omega arith)
nonzero (suc n) m a f above = omega arith

exact :
    (n m : ℕ)
    → 0 < n
    → Allows n m
    → n + m < 2 ^ 64
    → ¬ (m < 2 ^ trailing_zeros 64 n)
    → m ≡ 2 ^ trailing_zeros 64 n
exact n m pos (inl z) f above = absurd (omega arith)
exact n m pos (inr le) f above = omega (arith, max_size_lem n pos (omega arith))

module _ (sha256 : Bytes → Hash) where
  -- Both cases together, on sizes that are uint64.
  join :
      (target n m : ℕ) {nodes nodes' leaves leaves' : List Hash}
      → Represents sha256 0 n nodes leaves
      → Represents sha256 0 m nodes' leaves'
      → n + m < 2 ^ 64
      → Allows n m
      → target ≡ ones_count 64 (n + m)
      → (joined : List Hash) × (collapse_nodes sha256 target (nodes' ++ nodes) ≡ ok joined)
        × Represents sha256 0 (n + m) joined (leaves ++ leaves')
  join target n m {nodes} {nodes'} rep rep' f a t = elim (dec_lt m (2 ^ trailing_zeros 64 n)) [
    | yes below ↦
        let beside = Represents-beside sha256 64 rep rep' (omega arith) below in
        (
          nodes' ++ nodes,
          collapse_nodes-stop sha256 target (nodes' ++ nodes)
              (t ∙ sym (Represents-length sha256 64 beside f)),
          beside,
        )
    | no above ↦
        let pos : 0 < n = nonzero n m a f above in
        collapse_nodes-carry sha256 64 target rep rep' pos f (exact n m pos a f above) t
  ]

  -- `append` succeeds on the subtree that follows, if the offset of the first tree allows the size
  -- of both, its lowest one-bit that of the second, and nothing exceeds a uint64; the tree is then
  -- that of all leaves.
  pub append-IsTreeOf :
      (tree other : CollapsedTree) (ls ls' : List Hash)
      → IsTreeOf sha256 tree ls
      → IsTreeOf sha256 other ls'
      → tree.size + other.size < 2 ^ 64
      → tree.offset + tree.size < 2 ^ 64
      → tree.offset + tree.size ≡ other.offset
      → Allows tree.offset (tree.size + other.size)
      → Allows tree.size other.size
      → (joined : CollapsedTree) × (append sha256 tree other ≡ ok joined)
        × IsTreeOf sha256 joined (ls ++ ls')
        × (joined.size ≡ tree.size + other.size)
        × (joined.offset ≡ tree.offset)
  unfolding append collapse calculate_num_nodes
  append-IsTreeOf tree other ls ls' t t' f f' e a b =
      let (nodes, run, rep) =
        join (ones_count 64 (tree.size + other.size)) tree.size other.size t.shape t'.shape f b
          refl in
      (
        record tree { nodes = reverse nodes; size = tree.size + other.size },
        rw
            (
              add64-small _ _ f',
              e,
              ==_refl,
              add64-small _ _ f,
              offset_guard-Allows _ _ _ a,
              offset_guard-Allows _ _ _ b,
              reverse-append,
              run,
            )
            refl,
        record { fits = f; shape = rw (reverse-reverse nodes) rep },
        refl,
        refl,
      )
