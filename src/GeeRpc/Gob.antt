-- ===== src/GeeRpc/Gob.antt =====
-- geerpc/codec/god.go: what the codec writes to its connection.
--
-- The encoders of headers and of bodies are arguments: the bytes, or the error. `buf` is what the
-- writer holds back; it may pass bytes on before it is flushed, which leaves the order of the bytes
-- as it is. A panic of a method runs its deferred function first.
pub mod Frames
mod Tests
use distributed_study.Common.{Str, Option, none, some, [], ◌++◌, Bool, true, false}
use distributed_study.GeeRpc.Codec.{Header}

pub record GobCodec : Type 0 where
  pub sent : Str
  pub buf : Str
  pub closed : Bool

pub data Encoded : Type 0 where
  encoded : Str → Encoded
  unencodable : Str → Encoded

pub data Written : Type 0 where
  returned : Option Str → Written
  panicked : Str → Written

unfoldable pub new_gob_codec : GobCodec
new_gob_codec = record { sent = []; buf = []; closed = false }

-- `enc.Encode` of what is encoded, into the buffer.
unfoldable pub buffer : Str → GobCodec → GobCodec
buffer s c = record c { buf = c.buf ++ s }

unfoldable pub flush : GobCodec → GobCodec
flush c = record c { sent = c.sent ++ c.buf; buf = [] }

unfoldable pub close : GobCodec → GobCodec
close c = record c { closed = true }

module _ {B : Type 0} (encode_header : Header → Encoded) (encode_body : B → Encoded) where
  unfoldable pub write : Header → B → GobCodec → Written × GobCodec
  write h body c = elim (encode_header h) [
    | unencodable e ↦ (returned (some e), close (flush c))
    | encoded header_bytes ↦
        let c' = buffer header_bytes c in
        elim (encode_body body) [
          | unencodable e ↦ (panicked e, flush c')
          | encoded body_bytes ↦ (returned none, flush (buffer body_bytes c'))
        ]
  ]
