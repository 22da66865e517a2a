-- ===== src/Zinx/DataPack/Tests.antt =====
-- Packing and unpacking of concrete messages.
use distributed_study.Common.{◌+◌, ◌≤◌, ◌≡◌, refl, Str, List, [], ◌∷◌, ◌++◌, bytes, length, arith}
use distributed_study.Zinx.Message.{Message, new_msg_package}
use distributed_study.Zinx.DataPack.{
  ok, err, unexpected_eof, too_large, put_u32, get_u32, get_head_len, pack, fill, read_full,
  check_len, read_msg, unpack,
}
use distributed_study.Zinx.DataPack.Stream.{concat}
use distributed_study.Zinx.DataPack.RoundTrip.{unpack-pack, unpack-ok}

program : Unit {0}
unfolding new_msg_package put_u32 get_u32 get_head_len pack fill read_full check_len read_msg unpack
program = tt

abbrev hello : Message
hello = record { id = 7; data_len = 2; content = bytes "hi" }

abbrev packed : Str
packed = 2 ∷ 0 ∷ 0 ∷ 0 ∷ 7 ∷ 0 ∷ 0 ∷ 0 ∷ bytes "hi"

-- The connection brings the message in two reads.
abbrev in_pieces : List Str
in_pieces = (2 ∷ 0 ∷ 0 ∷ []) ∷ (0 ∷ 7 ∷ 0 ∷ 0 ∷ 0 ∷ bytes "hi") ∷ []

packs : pack (new_msg_package 7 (bytes "hi")) ≡ packed
unfolding program
packs = refl

head_len : length packed ≡ get_head_len + length hello.content
unfolding program
head_len = refl

refuses :
    (unpack 1 in_pieces ≡ (err too_large, []))
    × (unpack 4096 ((2 ∷ 0 ∷ []) ∷ []) ≡ (err unexpected_eof, []))
unfolding program
refuses = (refl, refl)

unpack-pack_example : (unpack 4096 in_pieces).0 ≡ ok (new_msg_package 7 (bytes "hi"))
unfolding program
unpack-pack_example =
    unpack-pack 4096 7 (bytes "hi") [] in_pieces (omega arith) (omega arith) (omega arith) refl

-- The second message of the read is gone.
unpack-ok_example :
    (length hello.content ≡ 2)
    × (2 ≤ 4096)
    × ((lost : Str) × (concat in_pieces ≡ pack hello ++ (lost ++ [])))
unfolding program
unpack-ok_example = unpack-ok 4096 in_pieces [] hello (omega arith) refl
