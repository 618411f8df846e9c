-- ===== src/Ct/Entries.antt =====
-- `GetEntries` of ct/client/logclient.go: the entries of an answer, each with its leaf and its chain
-- parsed. The arguments and the positions are int64, whose sum with an index wraps round.
use certspotter.Prelude.{
  ℕ, suc, ◌+◌, ◌<◌, ℤ, pos, ◌+ℤ◌, ltb_ℤ, wrap_int64, IsInt64, wrap_int64-eq, length, ◌≡◌, refl, ap,
  ◌∙◌, subst, List, [], ◌∷◌, Bytes, Result, ok, err, panic, ◌>>=◌, >>=-eq-ok, Bool-cases, inl, inr,
  ◌==◌, if◌then◌else◌, arith,
}
use certspotter.Ct.Types.{CtError, LogEntry, x509_log_entry_type, precert_log_entry_type}
use certspotter.Ct.Read.{
  read_merkle_tree_leaf, unmarshal_x509_chain_array, unmarshal_precert_chain_array,
}
use certspotter.Ct.Client.{ClientError, GetEntriesItem}

pub data EntryError : Type 0 where
  end_negative start_after_end : EntryError
  get_failed : ClientError → EntryError
  unreadable_leaf unreadable_chain : ℤ → CtError → EntryError
  unknown_entry_type : ℤ → EntryError

abbrev pub as_entry_error {ℓ ν} :
    {A : Type ℓ} {E : Type ν} → (E → EntryError) → Result E A → Result EntryError A
as_entry_error f (ok a) = ok a
as_entry_error f (err e) = err (f e)
as_entry_error f panic = panic

unfoldable pub chain_of : ℤ → ℕ → Bytes → Result EntryError (List Bytes)
chain_of index entry_type extra_data =
    if entry_type == x509_log_entry_type
    then as_entry_error (unreadable_chain index) (unmarshal_x509_chain_array extra_data)
    else if entry_type == precert_log_entry_type
    then as_entry_error (unreadable_chain index) (unmarshal_precert_chain_array extra_data)
    else err (unknown_entry_type index)

unfoldable pub entry_at : ℤ → GetEntriesItem → Result EntryError LogEntry
entry_at index item = do
  (leaf, rest) ← as_entry_error (unreadable_leaf index) (read_merkle_tree_leaf item.leaf_input)
  chain ← chain_of index leaf.timestamped_entry.entry_type item.extra_data
  ok (record { index = index; leaf = leaf; chain = chain; leaf_bytes = item.leaf_input })

-- `start + int64(index)`
abbrev pub position : ℤ → ℕ → ℤ
position start index = wrap_int64 (start +ℤ pos index)

unfoldable pub entries_from : ℤ → ℕ → List GetEntriesItem → Result EntryError (List LogEntry)
entries_from start index [] = ok []
entries_from start index (item ∷ items) = do
  entry ← entry_at (position start index) item
  entries ← entries_from start (suc index) items
  ok (entry ∷ entries)

unfoldable pub get_entries :
    ℤ → ℤ → Result ClientError (List GetEntriesItem) → Result EntryError (List LogEntry)
get_entries start end fetched =
    let parsed = as_entry_error get_failed fetched >>= entries_from start 0 in
    if ltb_ℤ end (pos 0)
    then err end_negative
    else if ltb_ℤ end start
    then err start_after_end
    else parsed

-- Each entry carries the position of its index, the bytes of its item, and the leaf that these
-- bytes are read as.
abbrev pub AreEntries : (ℕ → ℤ) → ℕ → List GetEntriesItem → List LogEntry → Type 0
AreEntries place index [] [] = Unit {0}
AreEntries place index [] (entry ∷ entries) = ⊥
AreEntries place index (item ∷ items) [] = ⊥
AreEntries place index (item ∷ items) (entry ∷ entries) =
    ((entry.index ≡ place index)
      × (entry.leaf_bytes ≡ item.leaf_input)
      × ((rest : Bytes) × (read_merkle_tree_leaf entry.leaf_bytes ≡ ok (entry.leaf, rest))))
    × AreEntries place (suc index) items entries

as_entry_error-eq_ok {ℓ ν} :
    {A : Type ℓ} {E : Type ν} (f : E → EntryError) (m : Result E A) {a : A}
    → as_entry_error f m ≡ ok a
    → m ≡ ok a
as_entry_error-eq_ok f (ok a) h = cc
as_entry_error-eq_ok f (err e) h = cc
as_entry_error-eq_ok f panic h = cc

entry_at-eq_ok :
    (index : ℤ) (item : GetEntriesItem) (entry : LogEntry)
    → entry_at index item ≡ ok entry
    → (entry.index ≡ index)
      × (entry.leaf_bytes ≡ item.leaf_input)
      × ((rest : Bytes) × (read_merkle_tree_leaf entry.leaf_bytes ≡ ok (entry.leaf, rest)))
unfolding entry_at
entry_at-eq_ok index item entry h =
    let ((leaf, rest), r, h1) =
      >>=-eq-ok (as_entry_error (unreadable_leaf index) (read_merkle_tree_leaf item.leaf_input)) _
        h in
    let (chain, c, h2) =
      >>=-eq-ok (chain_of index leaf.timestamped_entry.entry_type item.extra_data) _ h1 in
    let read =
      as_entry_error-eq_ok (unreadable_leaf index) (read_merkle_tree_leaf item.leaf_input) r in
    let made : LogEntry = record {
      index = index;
      leaf = leaf;
      chain = chain;
      leaf_bytes = item.leaf_input;
    } in
    let e : made ≡ entry = cc in
    subst
      (λ (t : LogEntry).
        (t.index ≡ index)
        × (t.leaf_bytes ≡ item.leaf_input)
        × ((rest : Bytes) × (read_merkle_tree_leaf t.leaf_bytes ≡ ok (t.leaf, rest))))
      e (refl, refl, (rest, read))

entries_from-AreEntries :
    (start : ℤ) (index : ℕ) (items : List GetEntriesItem) (entries : List LogEntry)
    → entries_from start index items ≡ ok entries
    → AreEntries (position start) index items entries
unfolding entries_from
entries_from-AreEntries start index [] [] h = tt
entries_from-AreEntries start index [] (entry ∷ entries) h = cc
entries_from-AreEntries start index (item ∷ items) [] h =
    let (entry, _, h1) = >>=-eq-ok (entry_at (position start index) item) _ h in
    let (entries, _, h2) = >>=-eq-ok (entries_from start (suc index) items) _ h1 in cc
entries_from-AreEntries start index (item ∷ items) (entry ∷ entries) h =
    let (entry', first, h1) = >>=-eq-ok (entry_at (position start index) item) _ h in
    let (entries', others, h2) = >>=-eq-ok (entries_from start (suc index) items) _ h1 in
    let same : entry' ≡ entry = cc in
    let same_rest : entries' ≡ entries = cc in
    (
      entry_at-eq_ok (position start index) item entry (first ∙ ap (λ t. ok t) same),
      entries_from-AreEntries start (suc index) items entries (others ∙ ap (λ t. ok t) same_rest),
    )

AreEntries-moved :
    (place place' : ℕ → ℤ) (index : ℕ) (items : List GetEntriesItem) (entries : List LogEntry)
    → ((i : ℕ) → i < index + length items → place i ≡ place' i)
    → AreEntries place index items entries
    → AreEntries place' index items entries
AreEntries-moved place place' index [] [] same h = tt
AreEntries-moved place place' index [] (entry ∷ entries) same h = h
AreEntries-moved place place' index (item ∷ items) [] same h = h
AreEntries-moved place place' index (item ∷ items) (entry ∷ entries) same ((at, bytes, read), h) = (
  (at ∙ same index (omega arith), bytes, read),
  AreEntries-moved place place' (suc index) items entries (λ i below. same i (omega arith)) h,
)

-- When `get_entries` returns entries, they are those of the items of the answer, one for each and in
-- order, each with the leaf that its leaf input is read as. The entry of index i stands at `start`
-- plus i, which wraps round as an int64.
get_entries-wrapped :
    (start end : ℤ) (items : List GetEntriesItem) (entries : List LogEntry)
    → get_entries start end (ok items) ≡ ok entries
    → AreEntries (position start) 0 items entries
unfolding get_entries
get_entries-wrapped start end items entries h = elim (Bool-cases (ltb_ℤ end (pos 0))) [
  | inl negative ↦ cc (rw negative at h)
  | inr natural ↦ elim (Bool-cases (ltb_ℤ end start)) [
    | inl after ↦ cc (rw (natural, after) at h)
    | inr before ↦ entries_from-AreEntries start 0 items entries (rw (natural, before) at h)
  ]
]

-- When `get_entries` returns entries, they are those of the items of the answer, one for each and in
-- order, each with the leaf that its leaf input is read as. The entry of index i has the position
-- `start` plus i, if for every index of an item this sum is in the range of an int64.
pub get_entries-AreEntries :
    (start end : ℤ) (items : List GetEntriesItem) (entries : List LogEntry)
    → ((i : ℕ) → i < length items → IsInt64 (start +ℤ pos i))
    → get_entries start end (ok items) ≡ ok entries
    → AreEntries (λ i. start +ℤ pos i) 0 items entries
get_entries-AreEntries start end items entries fits h =
    AreEntries-moved (position start) (λ i. start +ℤ pos i) 0 items entries
      (λ i below. wrap_int64-eq (start +ℤ pos i) (fits i (omega arith)))
      (get_entries-wrapped start end items entries h)
