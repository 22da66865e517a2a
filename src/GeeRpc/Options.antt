-- ===== src/GeeRpc/Options.antt =====
-- geerpc/client.go, parseOption: the options that a client opens its connection with.
--
-- Of the fields of an option the two stand here that a server tests. The option of the caller is
-- overwritten in place, so what is returned is also what the caller then has.
pub mod Accepted
mod Tests
use distributed_study.Common.{
  ℕ, Str, bytes, Option, none, some, List, [], ◌∷◌, Bool, ◌==◌, str_key, if◌then◌else◌,
}
use distributed_study.GeeRpc.Server.{ConnOption}

abbrev pub default_option : ConnOption
default_option = record { magic_number = 0x3bef5c; codec_type = bytes "application/god" }

-- `none` of the result is the error for more than one option.
unfoldable pub parse_option : List (Option ConnOption) → Option ConnOption
parse_option [] = some default_option
parse_option (none ∷ rest) = some default_option
parse_option (some opt ∷ next ∷ rest) = none
parse_option (some opt ∷ []) = some (record {
  magic_number = default_option.magic_number;
  codec_type = if opt.codec_type == [] then default_option.codec_type else opt.codec_type;
})
