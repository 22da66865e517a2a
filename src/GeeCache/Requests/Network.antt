-- ===== src/GeeCache/Requests/Network.antt =====
-- A network with one host, for tests.
use distributed_study.Common.{
  ◌≡◌, refl, Str, Dict, bytes, Option, none, some, ◌++◌, length, drop, drop-length-append,
}
use distributed_study.GeeCache.Group.{ok, Group}
use distributed_study.GeeCache.Requests.{Response, Answer, no_answer, answer}

unfoldable pub http_get : Str → (Str → Option (Response × Dict Str Group)) → Str → Answer
http_get host handler url = elim (handler (drop (length host) url)) [
  | none ↦ no_answer (bytes "EOF")
  | some (res, _) ↦ answer res.status (ok res.body)
]

pub http_get-handler :
    (host : Str) (handler : Str → Option (Response × Dict Str Group)) (rest : Str) (res : Response)
    (after : Dict Str Group)
    → handler rest ≡ some (res, after)
    → http_get host handler (host ++ rest) ≡ answer res.status (ok res.body)
unfolding http_get
http_get-handler host handler rest res after h =
    rw (http_get, drop-length-append host rest) (rw h refl)
