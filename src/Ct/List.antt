-- ===== src/Ct/List.antt =====
-- Certificate lists: what `read_asn1_cert_list` reads, that its loop ends, and what it lets pass.
use certspotter.Prelude.{
  ℕ, zero, suc, ◌+◌, ◌*◌, ◌%◌, ◌^◌, ◌≤◌, ◌<◌, ◌≡◌, ◌≢◌, refl, ◌⊎◌, inl, inr, List, [], ◌∷◌, ◌++◌,
  Bytes, All, Result, ok, err, panic, ◌>>=◌, >>=-eq-ok, length, length-append, arith, append_assoc,
  append-nil, Option, none, some,
}
use certspotter.Ct.Types.{CtError, eof, short_read, out_of_fuel}
use certspotter.Ct.Write.{big_endian}
use certspotter.Ct.Read.{
  cons_front, split_bytes, short, read_uint_loop, read_uint, read_var_bytes, read_list_loop,
  read_asn1_cert_list,
}
use certspotter.Ct.Codec.{length-big_endian}
use certspotter.Ct.Var.{read_var_bytes-big_endian}

-- A certificate behind its length of three bytes, and a list of such, as RFC 6962 puts them down.
abbrev pub framed : Bytes → Bytes
framed cert = big_endian 3 (length cert) ++ cert

abbrev pub framed_list : List Bytes → Bytes
framed_list [] = []
framed_list (cert ∷ certs) = framed cert ++ framed_list certs

-- A length prefix that is cut off is the end of the input.
cut_prefix : (g : Bytes) → length g < 3 → read_var_bytes g 3 ≡ err eof
unfolding read_var_bytes read_uint read_uint_loop
cut_prefix [] h = refl
cut_prefix (a ∷ []) h = refl
cut_prefix (a ∷ b ∷ []) h = refl
cut_prefix (a ∷ b ∷ c ∷ g) h = absurd (omega arith)

read_list_loop-framed_list :
    (certs : List Bytes) (fuel : ℕ) (g : Bytes) (list : List Bytes)
    → All (λ cert. length cert < 256 ^ 3) certs
    → length g < 3
    → length (framed_list certs) < fuel
    → read_list_loop fuel (framed_list certs ++ g) 3 list ≡ ok (list ++ certs)
unfolding read_list_loop
read_list_loop-framed_list certs zero g list h s f = absurd (omega arith)
read_list_loop-framed_list [] (suc fuel) g list h s f =
    rw (cut_prefix g s, read_list_loop, append-nil)
read_list_loop-framed_list (cert ∷ certs) (suc fuel) g list (h, hs) s f =
    let shorter : length (framed_list certs) < fuel = omega (
      arith,
      length-append (framed cert) (framed_list certs),
      length-append (big_endian 3 (length cert)) cert,
      length-big_endian 3 (length cert),
    ) in
    rw (
      append_assoc (framed cert),
      read_var_bytes-big_endian cert (framed_list certs ++ g) 3 (omega arith) (omega arith) h
          (omega arith),
      read_list_loop,
      read_list_loop-framed_list certs fuel g (list ++ (cert ∷ [])) hs s shorter,
      append_assoc,
    )

-- A framed list of framed certificates is read back. So it is with one or two bytes more behind the
-- last certificate, inside the list: the loop takes a cut length prefix for the end of the list.
pub read_asn1_cert_list-framed :
    (certs : List Bytes) (garbage rest : Bytes)
    → All (λ cert. length cert < 256 ^ 3) certs
    → length garbage < 3
    → length (framed_list certs ++ garbage) < 256 ^ 3
    → read_asn1_cert_list (framed (framed_list certs ++ garbage) ++ rest) 3 3 ≡ ok (certs, rest)
unfolding read_asn1_cert_list
read_asn1_cert_list-framed certs garbage rest h s f = rw (
  read_var_bytes-big_endian (framed_list certs ++ garbage) rest 3 (omega arith) (omega arith) f
      (omega arith),
  read_list_loop-framed_list certs (suc (length (framed_list certs ++ garbage))) garbage [] h s
      (omega (arith, length-append (framed_list certs) garbage)),
)

cons_front-shorter :
    (b n : ℕ) (o : Option (Bytes × Bytes))
    → ((x rest : Bytes) → o ≡ some (x, rest) → length rest ≤ n)
    → (x rest : Bytes) → cons_front b o ≡ some (x, rest)
    → length rest ≤ suc n
cons_front-shorter b n none h x rest e = cc
cons_front-shorter b n (some (front, back)) h x rest e =
    let same : back ≡ rest = cc in rw (← same) (omega (arith, h front back refl))

pub split_bytes-shorter :
    (n : ℕ) (r x rest : Bytes) → split_bytes n r ≡ some (x, rest) → length rest ≤ length r
unfolding split_bytes
split_bytes-shorter zero r x rest e = ground arith
split_bytes-shorter (suc n) [] x rest e = cc
split_bytes-shorter (suc n) (b ∷ r) x rest e =
    cons_front-shorter b (length r) (split_bytes n r) (split_bytes-shorter n r) x rest e

read_uint_loop-shorter :
    (n l v : ℕ) (r rest : Bytes) → read_uint_loop n l r ≡ ok (v, rest) → length r ≡ n + length rest
unfolding read_uint_loop
read_uint_loop-shorter zero l v r rest e = ground arith
read_uint_loop-shorter (suc n) l v [] rest e = cc
read_uint_loop-shorter (suc n) l v (t ∷ r) rest e =
    omega (arith, read_uint_loop-shorter n (l * 256 % 2 ^ 64 + t) v r rest e)

short-eq_ok : (o : Option (Bytes × Bytes)) (p : Bytes × Bytes) → short o ≡ ok p → o ≡ some p
short-eq_ok none p e = cc
short-eq_ok (some q) p e = cc

-- A successful read takes a byte at least.
read_var_bytes-shorter :
    (r x rest : Bytes) → read_var_bytes r 3 ≡ ok (x, rest) → length rest < length r
unfolding read_var_bytes read_uint
read_var_bytes-shorter r x rest e =
    let ((l, mid), head, body) = >>=-eq-ok (read_uint_loop 3 0 r) _ e in
    omega (
      arith,
      read_uint_loop-shorter 3 0 l r mid head,
      split_bytes-shorter l mid x rest (short-eq_ok (split_bytes l mid) (x, rest) body),
    )

read_uint_loop_cases :
    (n l : ℕ) (r : Bytes)
    → ((v : ℕ) × (rest : Bytes) × (read_uint_loop n l r ≡ ok (v, rest)))
      ⊎ (read_uint_loop n l r ≡ err eof)
unfolding read_uint_loop
read_uint_loop_cases zero l r = inl (l, r, refl)
read_uint_loop_cases (suc n) l [] = inr refl
read_uint_loop_cases (suc n) l (t ∷ r) = read_uint_loop_cases n (l * 256 % 2 ^ 64 + t) r

short_cases :
    (o : Option (Bytes × Bytes))
    → ((x rest : Bytes) × (short o ≡ ok (x, rest))) ⊎ (short o ≡ err short_read)
short_cases none = inr refl
short_cases (some (x, rest)) = inl (x, rest, refl)

-- The outcomes of a read of a certificate in a list.
read_var_bytes_cases :
    (r : Bytes)
    → ((x rest : Bytes) × (read_var_bytes r 3 ≡ ok (x, rest)))
      ⊎ ((read_var_bytes r 3 ≡ err eof) ⊎ (read_var_bytes r 3 ≡ err short_read))
unfolding read_var_bytes read_uint
read_var_bytes_cases r = elim (read_uint_loop_cases 3 0 r) [
  | inr cut ↦ inr (inl (rw cut))
  | inl (l, mid, head) ↦ elim (short_cases (split_bytes l mid)) [
    | inl (x, rest, body) ↦ inl (x, rest, rw head body)
    | inr body ↦ inr (inr (rw head body))
  ]
]

read_list_loop_ends :
    (fuel : ℕ) (r : Bytes) (list : List Bytes)
    → length r < fuel
    → read_list_loop fuel r 3 list ≢ err out_of_fuel
unfolding read_list_loop
read_list_loop_ends zero r list h = absurd (omega arith)
read_list_loop_ends (suc fuel) r list h = elim (read_var_bytes_cases r) [
  | inl (x, rest, e) ↦
      rw (e, read_list_loop)
        (read_list_loop_ends fuel rest (list ++ (x ∷ []))
          (omega (arith, read_var_bytes-shorter r x rest e)))
  | inr (inl e) ↦ rw (e, read_list_loop) (λ p. cc)
  | inr (inr e) ↦ rw (e, read_list_loop) (λ p. cc)
]

-- Reading a certificate list ends on every input: the fuel of the loop is enough.
pub read_asn1_cert_list_ends : (r : Bytes) → read_asn1_cert_list r 3 3 ≢ err out_of_fuel
unfolding read_asn1_cert_list
read_asn1_cert_list_ends r = elim (read_var_bytes_cases r) [
  | inr (inl e) ↦ rw e (λ p. cc)
  | inr (inr e) ↦ rw e (λ p. cc)
  | inl (x, rest, e) ↦ rw e (λ p.
      wrapped rest (read_list_loop (suc (length x)) x 3 [])
        (read_list_loop_ends (suc (length x)) x [] (omega arith)) p)
]
  where
    wrapped :
        (rest : Bytes) (m : Result CtError (List Bytes))
        → m ≢ err out_of_fuel
        → ◌>>=◌ {B = List Bytes × Bytes} m (λ list. ok (list, rest)) ≢ err out_of_fuel
    wrapped rest (ok list) h p = cc
    wrapped rest (err e) h p = h (cc)
    wrapped rest panic h p = cc
