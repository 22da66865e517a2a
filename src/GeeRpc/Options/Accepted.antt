-- ===== src/GeeRpc/Options/Accepted.antt =====
-- The options that a client sends are accepted.
use distributed_study.Common.{
  ◌≡◌, refl, sym, str_beq_iff, Str, bytes, Option, none, some, List, [], ◌∷◌, Bool, true, ◌==◌,
  str_beq, str_key, ◌||◌, arith, if◌then◌else◌,
}
use distributed_study.GeeRpc.Server.{ConnOption, Server, Value, serve_conn, serve_codec}
use distributed_study.GeeRpc.Options.{parse_option, default_option}

-- Whether the first option names no codec, or the one there is.
unfoldable pub names_codec : List (Option ConnOption) → Bool
names_codec [] = true
names_codec (none ∷ rest) = true
names_codec (some opt ∷ rest) = opt.codec_type == [] || opt.codec_type == bytes "application/god"

serve_conn_default :
    (values : List Value) (server : Server)
    → serve_conn (some default_option) values server ≡ serve_codec values server
unfolding serve_conn str_beq
serve_conn_default values server = refl

codec_or_default :
    (s : Str)
    → (s == [] || s == bytes "application/god") ≡ true
    → (if s == [] then bytes "application/god" else s) ≡ bytes "application/god"
codec_or_default s h = let same = str_beq_iff s (bytes "application/god") in ground arith

parse_option_default :
    (opts : List (Option ConnOption)) (opt : ConnOption)
    → parse_option opts ≡ some opt
    → names_codec opts ≡ true
    → default_option ≡ opt
unfolding parse_option names_codec
parse_option_default [] opt e h = ground arith
parse_option_default (none ∷ rest) opt e h = ground arith
parse_option_default (some o ∷ next ∷ rest) opt e h = ground arith
parse_option_default (some o ∷ []) opt e h =
    let codec = codec_or_default o.codec_type h in
    let same : some default_option ≡ some opt = rw (sym codec) e in ground arith

-- Where the first option that is given names no codec, or the one that exists, the options that
-- parseOption returns are accepted by ServeConn, whatever magic number was given.
serve_conn-parse_option :
    (opts : List (Option ConnOption)) (opt : ConnOption) (values : List Value) (server : Server)
    → parse_option opts ≡ some opt
    → names_codec opts ≡ true
    → serve_conn (some opt) values server ≡ serve_codec values server
serve_conn-parse_option opts opt values server e h =
    rw (sym (parse_option_default opts opt e h)) (serve_conn_default values server)
