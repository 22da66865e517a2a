-- ===== src/GeeRpc/XClient/Gathering.antt =====
-- What a broadcast returns.
use distributed_study.Common.{Str, Option, none, some, List, [], ◌∷◌}
use distributed_study.GeeRpc.Discovery
use distributed_study.GeeRpc.Discovery.{err}
use distributed_study.GeeRpc.XClient.{Outcome, succeeded, failed}

unfoldable pub first_error : List Outcome → Option Str
first_error [] = none
first_error (failed e ∷ os) = some e
first_error (succeeded body ∷ os) = first_error os

unfoldable pub first_reply : List Outcome → Option Str
first_reply [] = none
first_reply (failed e ∷ os) = first_reply os
first_reply (succeeded body ∷ os) = some body

or_else : Option Str → Option Str → Option Str
or_else none y = y
or_else (some x) y = some x
