-- ===== src/Zinx/DataPack/Stream.antt =====
-- Reading depends on the bytes of the stream, and not on how the reads of the connection cut it.
use distributed_study.Common.{
  ℕ, zero, suc, ◌≤◌, ◌<◌, ◌≡◌, ◌∙◌, refl, sym, ap, Str, List, [], ◌∷◌, ◌++◌, length, take, drop,
  length-append, drop-append_le, take-append-drop, arith,
}
use mathlib.Core.List.{append-nil, append_assoc}
use native.Mathlib.Decide.{dec_le}
use distributed_study.Zinx.DataPack.{
  Result, ok, err, Error, eof, unexpected_eof, Reader, fill, read_full,
}

abbrev pub concat : List Str → Str
concat [] = []
concat (c ∷ cs) = c ++ concat cs

-- The bytes that are still to come.
abbrev pub stream : Reader → Str
stream r = r.buf ++ concat r.conn

abbrev pub IsErr : {A : Type 0} → Result A → Type 0
IsErr r = (e : Error) × (r ≡ err e)

take-append_le : (n : ℕ) (s t : Str) → n ≤ length s → take n (s ++ t) ≡ take n s
take-append_le zero s t h = refl
take-append_le (suc n) [] t h = absurd (omega arith)
take-append_le (suc n) (x ∷ s) t h = ap (◌∷◌ x) (take-append_le n s t (omega arith))

fill_enough :
    (n : ℕ) (buf : Str) (conn : List Str)
    → n ≤ length (buf ++ concat conn)
    → (r : Reader) × (fill n buf conn ≡ (ok (take n (buf ++ concat conn)), r))
      × (stream r ≡ drop n (buf ++ concat conn))
unfolding fill
fill_enough n buf [] h =
    let e = append-nil buf in
    (
      record { buf = drop n buf; conn = [] },
      ground (arith, ap length e),
      ground (arith, append-nil (drop n buf)),
    )
fill_enough n buf (c ∷ conn) h = elim (dec_le n (length buf)) [
  | yes le ↦ (
    record { buf = drop n buf; conn = c ∷ conn },
    ground (arith, take-append_le n buf (c ++ concat conn)),
    sym (drop-append_le n buf (c ++ concat conn) le),
  )
  | no gt ↦
      let (r, e, rest) = fill_enough n (buf ++ c) conn (rw (append_assoc buf c (concat conn)) h) in
      (
        r,
        ground (arith, append_assoc buf c (concat conn)),
        ground (arith, append_assoc buf c (concat conn)),
      )
]

fill_short :
    (n : ℕ) (buf : Str) (conn : List Str)
    → length (buf ++ concat conn) < n
    → IsErr (fill n buf conn).0
unfolding fill
fill_short n buf [] h =
    let e = append-nil buf in
    (elim buf [ [] ↦ eof | b ∷ bs ↦ unexpected_eof ], ground (arith, ap length e))
fill_short n buf (c ∷ conn) h =
    let (e, f) = fill_short n (buf ++ c) conn (rw (append_assoc buf c (concat conn)) h) in
    (e, ground (arith, length-append buf (c ++ concat conn)))

-- What is in the buffer is read without a call of the connection.
pub fill_buffered :
    (n : ℕ) (buf : Str) (conn : List Str)
    → n ≤ length buf
    → fill n buf conn ≡ (ok (take n buf), record { buf = drop n buf; conn = conn })
unfolding fill
fill_buffered n buf [] h = ground arith
fill_buffered n buf (c ∷ conn) h = ground arith

pub take_prefix : (s t : Str) → take (length s) (s ++ t) ≡ s
take_prefix [] t = refl
take_prefix (x ∷ s) t = ap (◌∷◌ x) (take_prefix s t)

pub drop_prefix : (s t : Str) → drop (length s) (s ++ t) ≡ t
drop_prefix [] t = refl
drop_prefix (x ∷ s) t = drop_prefix s t

-- A reader whose stream begins with `s` gives `s` to a read of that length, and goes on behind it.
pub read_full_prefix :
    (n : ℕ) (s t : Str) (r : Reader)
    → length s ≡ n
    → stream r ≡ s ++ t
    → (r' : Reader) × (read_full n r ≡ (ok s, r')) × (stream r' ≡ t)
unfolding read_full
read_full_prefix n s t r e h =
    let (r', read, rest) =
      fill_enough n r.buf r.conn (omega (arith, ap length h, length-append s t, e)) in
    let front : take n (stream r) ≡ s = rw (h, ← e) (take_prefix s t) in
    let back : drop n (stream r) ≡ t = rw (h, ← e) (drop_prefix s t) in
    (r', ground arith, rest ∙ back)

length-take_enough : (n : ℕ) (s : Str) → n ≤ length s → length (take n s) ≡ n
length-take_enough zero s h = refl
length-take_enough (suc n) [] h = absurd (omega arith)
length-take_enough (suc n) (x ∷ s) h = ap suc (length-take_enough n s (omega arith))

-- And a read that succeeds gave the front of the stream.
pub read_full-ok :
    (n : ℕ) (s : Str) (r r' : Reader)
    → read_full n r ≡ (ok s, r')
    → (length s ≡ n) × (stream r ≡ s ++ stream r')
unfolding read_full
read_full-ok n s r r' h = elim (dec_le n (length (stream r))) [
  | no gt ↦ let (e, f) = fill_short n r.buf r.conn (omega arith) in absurd (ground arith)
  | yes le ↦
      let (q, read, rest) = fill_enough n r.buf r.conn le in
      (
        ground (arith, length-take_enough n (stream r) le),
        ground (arith, take-append-drop n (stream r)),
      )
]
