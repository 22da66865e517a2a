-- ===== src/GeeRpc/Options/Tests.antt =====
-- Options that are given, left out, and too many.
use distributed_study.Common.{◌≡◌, refl, none, some, [], ◌∷◌, str_beq}
use distributed_study.GeeRpc.Server.{ConnOption}
use distributed_study.GeeRpc.Options.{parse_option, default_option}

abbrev empty : ConnOption
empty = record { magic_number = 7; codec_type = [] }

parsed :
    (parse_option (some empty ∷ []) ≡ some default_option)
    × (parse_option [] ≡ some default_option)
    × (parse_option (some empty ∷ none ∷ []) ≡ none)
unfolding parse_option str_beq
parsed = (refl, refl, refl)
