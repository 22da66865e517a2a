-- ===== src/Zinx/DataPack/RoundTrip.antt =====
-- What `Pack` writes `Unpack` reads back, and what `Unpack` accepts was packed so.
use distributed_study.Common.{
  ℕ, ◌^◌, ◌≤◌, ◌<◌, ◌≡◌, ◌∙◌, refl, sym, ap, Str, List, [], ◌∷◌, ◌++◌, length, length-append, All,
  inl, inr, ◌⊎◌, arith,
}
use mathlib.Core.List.{append_assoc}
use distributed_study.Zinx.Message.{Message, new_msg_package}
use distributed_study.Zinx.DataPack.{
  Result, ok, err, Error, Reader, put_u32, get_u32, pack, fill, read_full, check_len, read_msg,
  unpack,
}
use distributed_study.Zinx.DataPack.Stream.{
  concat, stream, fill_buffered, take_prefix, drop_prefix, read_full_prefix, read_full-ok,
}

get_u32-put_u32 : (n : ℕ) → n < 2 ^ 32 → get_u32 (put_u32 n) ≡ n
unfolding get_u32 put_u32
get_u32-put_u32 n h = omega arith

length-put_u32 : (n : ℕ) → length (put_u32 n) ≡ 4
unfolding put_u32
length-put_u32 n = refl

-- Every element is a byte.
abbrev pub AreBytes : Str → Type 0
AreBytes = All (λ b. b < 256)

put_u32-get_u32 : (s : Str) → length s ≡ 4 → AreBytes s → put_u32 (get_u32 s) ≡ s
unfolding get_u32 put_u32
put_u32-get_u32 (a ∷ b ∷ c ∷ d ∷ []) e h = ground arith
put_u32-get_u32 s e h = absurd (omega arith)

-- Three reads that give the parts of a packed message give the message.
read_msg_parts :
    (max_size : ℕ) (m : Message) (r r1 r2 r3 : Reader)
    → m.id < 2 ^ 32
    → m.data_len < 2 ^ 32
    → m.data_len ≤ max_size
    → read_full 4 r ≡ (ok (put_u32 m.data_len), r1)
    → read_full 4 r1 ≡ (ok (put_u32 m.id), r2)
    → read_full m.data_len r2 ≡ (ok m.content, r3)
    → read_msg max_size r ≡ (ok m, r3)
unfolding read_msg check_len
read_msg_parts max_size m r r1 r2 r3 hi hl hm e1 e2 e3 =
    let l = get_u32-put_u32 m.data_len hl in let i = get_u32-put_u32 m.id hi in ground arith

pack-append :
    (m : Message) (t : Str) → pack m ++ t ≡ put_u32 m.data_len ++ (put_u32 m.id ++ (m.content ++ t))
unfolding pack
pack-append m t = simp append_assoc

read_msg-pack :
    (max_size : ℕ) (m : Message) (t : Str) (r : Reader)
    → m.id < 2 ^ 32
    → m.data_len < 2 ^ 32
    → m.data_len ≤ max_size
    → length m.content ≡ m.data_len
    → stream r ≡ pack m ++ t
    → (r' : Reader) × (read_msg max_size r ≡ (ok m, r')) × (stream r' ≡ t)
read_msg-pack max_size m t r hi hl hm e h =
    let (r1, e1, s1) =
      read_full_prefix 4 (put_u32 m.data_len) _ r (length-put_u32 m.data_len)
        (h ∙ pack-append m t) in
    let (r2, e2, s2) = read_full_prefix 4 (put_u32 m.id) _ r1 (length-put_u32 m.id) s1 in
    let (r3, e3, s3) = read_full_prefix m.data_len m.content t r2 e s2 in
    (r3, read_msg_parts max_size m r r1 r2 r3 hi hl hm e1 e2 e3, s3)

-- The package has the content's own length, where that is a uint32.
package_fits :
    (id : ℕ) (content : Str)
    → length content < 2 ^ 32
    → (new_msg_package id content).data_len ≡ length content
unfolding new_msg_package
package_fits id content h = omega arith

package_id : (id : ℕ) (content : Str) → (new_msg_package id content).id ≡ id
unfolding new_msg_package
package_id id content = refl

package_content : (id : ℕ) (content : Str) → (new_msg_package id content).content ≡ content
unfolding new_msg_package
package_content id content = refl

-- A message is read back from any connection whose bytes begin with its packing, however the
-- reads cut them, if its id and the limit are uint32 and its content is within the limit.
pub unpack-pack :
    (max_size id : ℕ) (content rest : Str) (conn : List Str)
    → id < 2 ^ 32
    → max_size < 2 ^ 32
    → length content ≤ max_size
    → concat conn ≡ pack (new_msg_package id content) ++ rest
    → (unpack max_size conn).0 ≡ ok (new_msg_package id content)
unfolding unpack
unpack-pack max_size id content rest conn hi hm h e =
    let m = new_msg_package id content in
    let l = package_fits id content (omega arith) in
    let (r, read, _) =
      read_msg-pack max_size m rest (record { buf = []; conn = conn }) (rw package_id hi)
        (omega arith) (omega arith) (ap length (package_content id content) ∙ sym l) e in
    ap (λ (p : Result Message × Reader). p.0) read

read_buffered :
    (n : ℕ) (s t : Str) (conn : List Str)
    → length s ≡ n
    → read_full n (record { buf = s ++ t; conn = conn }) ≡ (ok s, record { buf = t; conn = conn })
unfolding read_full
read_buffered n s t conn e =
    rw
      (
        fill_buffered n (s ++ t) conn (omega (arith, length-append s t)),
        ← e,
        take_prefix s t,
        drop_prefix s t,
      )
      refl

read_chunk :
    (c : Str) (conn : List Str)
    → read_full 4 (record { buf = []; conn = c ∷ conn })
      ≡ read_full 4 (record { buf = c; conn = conn })
unfolding read_full fill
read_chunk c conn = refl

-- Unpack drops what its reader has buffered behind the message: whatever came in the same read
-- as the whole message is gone from the connection, if id and limit are uint32 and the content
-- is within the limit.
unpack_drops :
    (max_size id : ℕ) (content rest : Str) (conn : List Str)
    → id < 2 ^ 32
    → max_size < 2 ^ 32
    → length content ≤ max_size
    → unpack max_size ((pack (new_msg_package id content) ++ rest) ∷ conn)
      ≡ (ok (new_msg_package id content), conn)
unfolding unpack
unpack_drops max_size id content rest conn hi hm h =
    let m = new_msg_package id content in
    let l = package_fits id content (omega arith) in
    let r : Reader = record { buf = m.content ++ rest; conn = conn } in
    let read : read_msg max_size (record { buf = []; conn = (pack m ++ rest) ∷ conn })
        ≡ (ok m, record { buf = rest; conn = conn }) =
      read_msg_parts max_size m (record { buf = []; conn = (pack m ++ rest) ∷ conn })
        (record { buf = put_u32 m.id ++ (m.content ++ rest); conn = conn })
        (record { buf = m.content ++ rest; conn = conn }) (record { buf = rest; conn = conn })
        (rw package_id hi) (omega arith) (omega arith)
        (read_chunk (pack m ++ rest) conn
          ∙ rw (pack-append m rest) (
              read_buffered 4 (put_u32 m.data_len) (put_u32 m.id ++ (m.content ++ rest)) conn
                (length-put_u32 m.data_len)))
        (read_buffered 4 (put_u32 m.id) (m.content ++ rest) conn (length-put_u32 m.id))
        (read_buffered m.data_len m.content rest conn
          (ap length (package_content id content) ∙ sym l)) in
    ground (arith, read)

outcome :
    (p : Result Str × Reader)
    → ((s : Str) × (q : Reader) × (p ≡ (ok s, q))) ⊎ ((e : Error) × (q : Reader) × (p ≡ (err e, q)))
outcome (ok s, q) = inl (s, q, refl)
outcome (err e, q) = inr (e, q, refl)

bytes-append : (s t : Str) → AreBytes (s ++ t) → AreBytes s × AreBytes t
bytes-append [] t h = (tt, h)
bytes-append (x ∷ s) t h = let (l, r) = bytes-append s t h.1 in ((h.0, l), r)

-- The reads behind a message that was accepted.
read_msg-reads :
    (max_size : ℕ) (m : Message) (r r' : Reader)
    → read_msg max_size r ≡ (ok m, r')
    → (len : Str) × (id : Str) × (r1 : Reader) × (r2 : Reader) × (read_full 4 r ≡ (ok len, r1))
      × (read_full 4 r1 ≡ (ok id, r2))
      × (read_full (get_u32 len) r2 ≡ (ok m.content, r'))
      × (m.data_len ≡ get_u32 len)
      × (m.id ≡ get_u32 id)
      × (m.data_len ≤ max_size)
unfolding read_msg check_len
read_msg-reads max_size m r r' h = elim (outcome (read_full 4 r)) [
  | inr (e, q, f) ↦ absurd (ground arith)
  | inl (len, r1, e1) ↦ elim (outcome (read_full 4 r1)) [
    | inr (e, q, f) ↦ absurd (ground arith)
    | inl (id, r2, e2) ↦ elim (outcome (read_full (get_u32 len) r2)) [
      | inr (e, q, f) ↦ absurd (ground arith)
      | inl (content, r3, e3) ↦
          (len, id, r1, r2, e1, e2, ground arith, ground arith, ground arith, ground arith)
    ]
  ]
]

read_msg-ok :
    (max_size : ℕ) (m : Message) (r r' : Reader)
    → AreBytes (stream r)
    → read_msg max_size r ≡ (ok m, r')
    → (length m.content ≡ m.data_len) × (m.data_len ≤ max_size) × (stream r ≡ pack m ++ stream r')
read_msg-ok max_size m r r' bytes h =
    let (len, id, r1, r2, e1, e2, e3, l, i, within) = read_msg-reads max_size m r r' h in
    let (four, s1) = read_full-ok 4 len r r1 e1 in
    let (four', s2) = read_full-ok 4 id r1 r2 e2 in
    let (size, s3) = read_full-ok (get_u32 len) m.content r2 r' e3 in
    let (len_bytes, rest) = bytes-append len (stream r1) (rw s1 at bytes) in
    let (id_bytes, _) = bytes-append id (stream r2) (rw s2 at rest) in
    let p = put_u32-get_u32 len four len_bytes in
    let q = put_u32-get_u32 id four' id_bytes in
    (size ∙ sym l, within, s1 ∙ rw (s2, s3, l, p, i, q) refl ∙ sym (pack-append m (stream r')))

-- A message that Unpack accepts is within the limit, its length field is the length of its
-- content, and the bytes of the connection are its packing, what was lost with the reader, and
-- what is left on the connection.
pub unpack-ok :
    (max_size : ℕ) (conn conn' : List Str) (m : Message)
    → AreBytes (concat conn)
    → unpack max_size conn ≡ (ok m, conn')
    → (length m.content ≡ m.data_len)
      × (m.data_len ≤ max_size)
      × ((lost : Str) × (concat conn ≡ pack m ++ (lost ++ concat conn')))
unfolding unpack
unpack-ok max_size conn conn' m bytes h =
    let r : Reader = record { buf = []; conn = conn } in
    let r' = (read_msg max_size r).1 in
    let read : read_msg max_size r ≡ (ok m, r') = ground arith in
    let (size, within, all) = read_msg-ok max_size m r r' bytes read in
    (size, within, (r'.buf, ground arith))
