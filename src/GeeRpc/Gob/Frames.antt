-- ===== src/GeeRpc/Gob/Frames.antt =====
-- What reaches the connection.
use distributed_study.Common.{◌≡◌, none, some, [], ◌++◌, true, arith}
use mathlib.Core.List.{append-nil}
use distributed_study.GeeRpc.Codec.{Header}
use distributed_study.GeeRpc.Gob.{
  GobCodec, Encoded, encoded, unencodable, Written, returned, panicked, buffer, flush, close, write,
}

-- What a write of the two encodings does, on a codec with nothing in its buffer.
unfoldable pub frame : Encoded → Encoded → GobCodec → Written × GobCodec
frame (unencodable e) body c = (returned (some e), record c { closed = true })
frame (encoded h) (unencodable e) c = (panicked e, record c { sent = c.sent ++ h })
frame (encoded h) (encoded b) c = (returned none, record c { sent = c.sent ++ (h ++ b) })

-- From an empty buffer a write leaves an empty buffer. A header and a body are sent one behind the
-- other; a header that cannot be encoded sends nothing, closes the connection and is returned as
-- the error; and a body that cannot be encoded panics, with the header alone sent and the
-- connection open.
write-frame :
    {B : Type 0} (encode_header : Header → Encoded) (encode_body : B → Encoded) (h : Header)
    (body : B) (c : GobCodec)
    → c.buf ≡ []
    → write encode_header encode_body h body c ≡ frame (encode_header h) (encode_body body) c
unfolding write frame buffer flush close
write-frame encode_header encode_body h body c empty = ground (arith, append-nil c.sent)
