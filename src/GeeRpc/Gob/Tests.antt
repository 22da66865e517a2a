-- ===== src/GeeRpc/Gob/Tests.antt =====
-- A response that can be encoded, and one that cannot.
use distributed_study.Common.{◌≡◌, refl, bytes, none, [], false}
use distributed_study.GeeRpc.Codec.{Header}
use distributed_study.GeeRpc.Gob.{
  encoded, unencodable, returned, panicked, new_gob_codec, buffer, flush, close, write,
}
use distributed_study.GeeRpc.Gob.Frames.{frame}

program : Unit {0}
unfolding new_gob_codec buffer flush close write frame
program = tt

abbrev header : Header
header = record { service_method = bytes "Foo.Sum"; seq = 1; error = [] }

written :
    (write (λ h. encoded h.service_method) encoded header (bytes "3") new_gob_codec
      ≡ (returned none, record { sent = bytes "Foo.Sum3"; buf = []; closed = false }))
    × (write (λ h. encoded h.service_method) unencodable header (bytes "chan") new_gob_codec
        ≡ (panicked (bytes "chan"), record { sent = bytes "Foo.Sum"; buf = []; closed = false }))
unfolding program
written = (refl, refl)
