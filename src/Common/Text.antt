-- ===== src/Common/Text.antt =====
-- What the programs use of Go's packages `sort` and `strings`, over bytes.
use Prim.Native.Nat.{ℕ}
use mathlib.Core.Bool.{Bool, true, false, ◌&&◌, ◌||◌}
use mathlib.Core.List.{List, [], ◌∷◌, ◌++◌}
use mathlib.Core.Path.{◌≡◌, refl}
use native.Mathlib.Omega.{arith}
use distributed_study.Common.Keys.{Str, str_beq}
use distributed_study.Common.Tests.{ltb, leb, nat_beq, if◌then◌else◌}

unfoldable pub has_byte : ℕ → Str → Bool
has_byte b [] = false
has_byte b (c ∷ s) = if nat_beq c b then true else has_byte b s

unfoldable pub contains : Str → List Str → Bool
contains k [] = false
contains k (s ∷ l) = str_beq s k || contains k l

-- `s <= t`, byte by byte.
pub str_leb : Str → Str → Bool
str_leb [] t = true
str_leb (x ∷ s) [] = false
str_leb (x ∷ s) (y ∷ t) = ltb x y || (nat_beq x y && str_leb s t)

pub insert_str : Str → List Str → List Str
insert_str s [] = s ∷ []
insert_str s (t ∷ l) = if str_leb s t then s ∷ t ∷ l else t ∷ insert_str s l

-- `sort.Strings`.
unfoldable pub sort_strings : List Str → List Str
unfolding insert_str str_leb
sort_strings [] = []
sort_strings (s ∷ l) = insert_str s (sort_strings l)

-- `strings.Join` with one byte.
unfoldable pub join : ℕ → List Str → Str
join sep [] = []
join sep (s ∷ []) = s
join sep (s ∷ t ∷ l) = s ++ sep ∷ join sep (t ∷ l)

abbrev pub is_space : ℕ → Bool
is_space b = (leb 9 b && leb b 13) || nat_beq b 32

-- A byte in front of the first piece.
abbrev pub onto : ℕ → List Str → List Str
onto b [] = (b ∷ []) ∷ []
onto b (s ∷ l) = (b ∷ s) ∷ l

-- A byte in front of a text, unless it is a space before nothing.
abbrev pub drop_last_space : ℕ → Str → Str
drop_last_space b [] = if is_space b then [] else b ∷ []
drop_last_space b (c ∷ s) = b ∷ c ∷ s

-- `strings.Split` at one byte: the pieces, the first of which goes on with `s` once it has begun.
unfoldable pub split : ℕ → Str → List Str
split sep [] = [] ∷ []
split sep (b ∷ s) = if nat_beq b sep then [] ∷ split sep s else onto b (split sep s)

unfoldable pub trim_left : Str → Str
trim_left [] = []
trim_left (b ∷ s) = if is_space b then trim_left s else b ∷ s

-- Drops spaces at the end.
unfoldable pub trim_right : Str → Str
trim_right [] = []
trim_right (b ∷ s) = drop_last_space b (trim_right s)

-- `strings.TrimSpace`, on ASCII text.
unfoldable pub trim_space : Str → Str
trim_space s = trim_right (trim_left s)

contains-insert_str :
    (k s : Str) (l : List Str) → contains k (insert_str s l) ≡ (str_beq s k || contains k l)
unfolding contains insert_str
contains-insert_str k s [] = refl
contains-insert_str k s (t ∷ l) = ground (arith, contains-insert_str k s l)

pub contains-sort_strings : (k : Str) (l : List Str) → contains k (sort_strings l) ≡ contains k l
unfolding contains sort_strings
contains-sort_strings k [] = refl
contains-sort_strings k (s ∷ l) =
    ground (arith, contains-insert_str k s (sort_strings l), contains-sort_strings k l)
