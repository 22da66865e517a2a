-- ===== src/GeeCache/Requests/Answers.antt =====
-- What a node gets from another is what the other's group has.
use distributed_study.Common.{
  ℕ, ◌≡◌, ◌∙◌, refl, ap, Str, Dict, insert, bytes, some, [], ◌∷◌, ◌++◌, true, false, nat_key,
  str_key, drop-length-append, has_byte, arith,
}
use mathlib.Core.List.{append_assoc}
use distributed_study.GeeCache.Cache.{ByteView}
use distributed_study.GeeCache.Group
use distributed_study.GeeCache.Group.{Result, ok, err, Group}
use distributed_study.GeeCache.HttpPool.{HttpPool}
use distributed_study.GeeCache.Requests.{
  Response, Answer, answer, has_prefix, split_once, write_view, bytes_of, serve_http, get_url,
  read_answer, get,
}

has_prefix-append : (p s : Str) → has_prefix p (p ++ s) ≡ true
unfolding has_prefix
has_prefix-append [] s = refl
has_prefix-append (b ∷ p) s = ground (arith, has_prefix-append p s)

split_once-append :
    (sep : ℕ) (s t : Str) → has_byte sep s ≡ false → split_once sep (s ++ sep ∷ t) ≡ some (s, t)
unfolding split_once has_byte
split_once-append sep [] t h = ground arith
split_once-append sep (b ∷ s) t h = ground (arith, split_once-append sep s t)

-- What the asking node makes of the other group's outcome.
unfoldable pub passed_on : Result ByteView → Result Str
passed_on (ok v) = ok v.b
passed_on (err e) = err (bytes "server returned: 500 Internal Server Error")

module _ (net : Str → Answer) (query_escape unescape : Str → Str)
    (marshal unmarshal : Str → Result Str) (host group key : Str) (p : HttpPool)
    (groups : Dict Str Group) (g g' : Group) (r : Result ByteView)
    (inverse : (b : Str) → (m : Str) × (marshal b ≡ ok m) × (unmarshal m ≡ ok b))
    (unescaped : unescape (p.base_path ++ (query_escape group ++ b'/' ∷ query_escape key))
      ≡ p.base_path ++ (group ++ b'/' ∷ key))
    (one_part : has_byte b'/' group ≡ false) (there : Group.get_group group groups ≡ some g)
    (gets : Group.get key g ≡ some (r, g'))
    (delivers : (rest : Str) (res : Response) (after : Dict Str Group)
      → serve_http marshal (unescape rest) p groups ≡ some (res, after)
      → net (host ++ rest) ≡ answer res.status (ok res.body)) where
  served :
      serve_http marshal (p.base_path ++ (group ++ b'/' ∷ key)) p groups
      ≡ some (write_view marshal (bytes_of r), insert group g' groups)
  unfolding serve_http
  served =
      let prefix = has_prefix-append p.base_path (group ++ b'/' ∷ key) in
      let tail = drop-length-append p.base_path (group ++ b'/' ∷ key) in
      let parts = split_once-append b'/' group key one_part in
      rw (serve_http, prefix) (rw tail (rw parts (rw there (rw gets refl))))

  read_answer-write_view :
      (r : Result ByteView)
      → let res = write_view marshal (bytes_of r) in
        read_answer unmarshal (answer res.status (ok res.body)) ≡ passed_on r
  unfolding read_answer write_view passed_on
  read_answer-write_view (err e) = refl
  read_answer-write_view (ok v) = let (m, packed, unpacked) = inverse v.b in ground arith

  -- Where a node asks another for a key of one of its groups, it gets the bytes that the group's
  -- `Get` returns there, or an error where that fails, if the name of the group has no slash, the
  -- path is received as it was before escaping, the handler's response is delivered, and Unmarshal
  -- gives back what Marshal was given.
  pub get-serve_http :
      get net query_escape unmarshal (record { base_url = host ++ p.base_path }) group key
      ≡ passed_on r
  unfolding get get_url
  get-serve_http =
      let rest = query_escape group ++ b'/' ∷ query_escape key in
      let received = ap (λ path. serve_http marshal path p groups) unescaped ∙ served in
      let answered = delivers (p.base_path ++ rest) _ (insert group g' groups) received in
      ap (read_answer unmarshal) (ap net (append_assoc host p.base_path rest) ∙ answered)
      ∙ read_answer-write_view r
