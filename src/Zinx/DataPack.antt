-- ===== src/Zinx/DataPack.antt =====
-- myzinx/znet/datapack.go: packing and unpacking of messages, little endian.
--
-- A connection is the list of what its next `Read` calls return, of at most 4096 bytes each, and
-- then the end of the stream. A `Reader` is the `bufio.Reader` that `Unpack` wraps around it.
pub mod Stream
pub mod RoundTrip
mod Tests
use distributed_study.Common.{
  ℕ, ◌+◌, ◌*◌, ◌/◌, ◌%◌, ◌^◌, Str, List, [], ◌∷◌, ◌++◌, Bool, true, false, ltb, leb, if◌then◌else◌,
  length, take, drop,
}
use distributed_study.Zinx.Message.{Message}

pub data Error : Type 0 where
  eof unexpected_eof too_large : Error

pub data Result {ℓ} (A : Type ℓ) : Type ℓ where
  ok : A → Result A
  err : Error → Result A

pub record Reader : Type 0 where
  pub buf : Str
  pub conn : List Str

-- Steps that read, and may fail; what was read stays consumed.
abbrev pub M : Type 0 → Type 0
M A = Reader → Result A × Reader

infixl 5 ◌>>=◌ ◌>>◌
abbrev pub ◌>>=◌ : {A B : Type 0} → M A → (A → M B) → M B
◌>>=◌ m f r = let (a, r') = m r in elim a [ ok x ↦ f x r' | err e ↦ (err e, r') ]

abbrev pub ◌>>◌ : {B : Type 0} → M (Unit {0}) → M B → M B
m >> k = m >>= λ _. k

abbrev pub return : {A : Type 0} → A → M A
return a r = (ok a, r)

-- `binary.Write` and `binary.Read` of a uint32.
pub put_u32 : ℕ → Str
put_u32 n = (n % 256) ∷ (n / 256 % 256) ∷ (n / 65536 % 256) ∷ (n / 16777216 % 256) ∷ []

pub get_u32 : Str → ℕ
get_u32 [] = 0
get_u32 (b ∷ bs) = b + 256 * get_u32 bs

pub get_head_len : ℕ
get_head_len = 8

pub pack : Message → Str
unfolding put_u32
pack msg = put_u32 msg.data_len ++ (put_u32 msg.id ++ msg.content)

-- `io.ReadFull`: `n` bytes, from the buffer and then from as many reads as it takes.
pub fill : ℕ → Str → List Str → Result Str × Reader
fill n buf [] =
    if leb n (length buf)
    then (ok (take n buf), record { buf = drop n buf; conn = [] })
    else (err (elim buf [ [] ↦ eof | b ∷ bs ↦ unexpected_eof ]), record { buf = []; conn = [] })
fill n buf (c ∷ conn) =
    if leb n (length buf)
    then (ok (take n buf), record { buf = drop n buf; conn = c ∷ conn })
    else fill n (buf ++ c) conn

pub read_full : ℕ → M Str
read_full n r = fill n r.buf r.conn

-- The test on the length field; a uint32 is never below 0.
pub check_len : ℕ → ℕ → M (Unit {0})
check_len max_size n r = (if ltb max_size n then err too_large else ok tt, r)

pub read_msg : ℕ → M Message
read_msg max_size = do
  len ← read_full 4
  id ← read_full 4
  check_len max_size (get_u32 len)
  content ← read_full (get_u32 len)
  return (record { id = get_u32 id; data_len = get_u32 len; content = content })

-- The reader is new, and dropped in the end with what it still buffers.
pub unpack : ℕ → List Str → Result Message × List Str
unpack max_size conn =
    let (a, r) = read_msg max_size (record { buf = []; conn = conn }) in (a, r.conn)
