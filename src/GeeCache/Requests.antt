-- ===== src/GeeCache/Requests.antt =====
-- geecache/http.go, ServeHTTP and httpGetter.Get: how one node asks another for a key.
--
-- `proto.Marshal`, `proto.Unmarshal`, `url.QueryEscape` and what `net/http` makes of the path of a
-- URL are arguments. `none` of what a server does is a panic. An answer is what `http.Get` returns:
-- an error, or a status with the body or the error of reading it.
pub mod Answers
pub mod Network
mod Tests
use distributed_study.Common.{
  ℕ, Str, Dict, lookup, insert, bytes, Option, none, some, ◌>>=◌, List, [], ◌∷◌, ◌++◌, Bool, true,
  false, not, ◌&&◌, ◌==◌, nat_key, str_key, length, drop, if◌then◌else◌,
}
use distributed_study.GeeCache.Cache.{ByteView}
use distributed_study.GeeCache.Group
use distributed_study.GeeCache.Group.{Result, ok, err, Group}
use distributed_study.GeeCache.HttpPool.{HttpGetter, HttpPool}

pub record Response : Type 0 where
  pub status : ℕ
  pub body : Str

pub data Answer : Type 0 where
  no_answer : Str → Answer
  answer : ℕ → Result Str → Answer

-- `strings.HasPrefix(s, prefix)`.
unfoldable pub has_prefix : Str → Str → Bool
has_prefix [] s = true
has_prefix (b ∷ prefix) [] = false
has_prefix (b ∷ prefix) (c ∷ s) = b == c && has_prefix prefix s

-- `strings.SplitN(s, "/", 2)`, where it gives two parts.
unfoldable pub split_once : ℕ → Str → Option (Str × Str)
split_once sep [] = none
split_once sep (b ∷ s) =
    if b == sep then some ([], s) else (do (front, rest) ← split_once sep s; some (b ∷ front, rest))

-- `http.Error`, which ends the text with a newline.
abbrev pub http_error : Str → ℕ → Response
http_error text status = record { status = status; body = text ++ 10 ∷ [] }

-- What is written for the outcome of the group's `Get`.
unfoldable pub write_view : (Str → Result Str) → Result Str → Response
write_view marshal (err e) = http_error e 500
write_view marshal (ok value) = elim (marshal value) [
  | err e ↦ http_error e 500
  | ok body ↦ record { status = 200; body = body }
]

abbrev pub bytes_of : Result ByteView → Result Str
bytes_of (ok v) = ok v.b
bytes_of (err e) = err e

unfoldable pub serve_http :
    (Str → Result Str) → Str → HttpPool → Dict Str Group → Option (Response × Dict Str Group)
serve_http marshal path p groups =
    if not (has_prefix p.base_path path)
    then none
    else elim (split_once b'/' (drop (length p.base_path) path)) [
      | none ↦ some (http_error (bytes "bad request") 400, groups)
      | some (group_name, key) ↦ elim (Group.get_group group_name groups) [
        | none ↦ some (http_error (bytes "no such group: " ++ group_name) 404, groups)
        | some g ↦ do
          (view, g') ← Group.get key g
          some (write_view marshal (bytes_of view), insert group_name g' groups)
      ]
    ]

-- `res.Status`, of the statuses that a node writes.
abbrev pub status_text : ℕ → Str
status_text status =
    if status == 400
    then bytes "400 Bad Request"
    else (if status == 404 then bytes "404 Not Found" else bytes "500 Internal Server Error")

-- The URL that `httpGetter.Get` asks for.
unfoldable pub get_url : (Str → Str) → HttpGetter → Str → Str → Str
get_url query_escape h group key = h.base_url ++ (query_escape group ++ b'/' ∷ query_escape key)

-- What `httpGetter.Get` makes of the answer.
unfoldable pub read_answer : (Str → Result Str) → Answer → Result Str
read_answer unmarshal (no_answer e) = err e
read_answer unmarshal (answer status body) =
    if not (status == 200)
    then err (bytes "server returned: " ++ status_text status)
    else elim body [
      | err e ↦ err (bytes "reading response: " ++ e)
      | ok b ↦ elim (unmarshal b) [
        | err e ↦ err (bytes "decoding response body: " ++ e)
        | ok value ↦ ok value
      ]
    ]

unfoldable pub get :
    (Str → Answer) → (Str → Str) → (Str → Result Str) → HttpGetter → Str → Str → Result Str
get http_get query_escape unmarshal h group key =
    read_answer unmarshal (http_get (get_url query_escape h group key))
