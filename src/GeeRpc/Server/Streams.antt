-- ===== src/GeeRpc/Server/Streams.antt =====
-- What the server answers to the requests on a connection.
use distributed_study.Common.{
  ℕ, zero, suc, ◌≤◌, ◌≡◌, ◌∙◌, ap, refl, sym, none, some, List, [], ◌∷◌, ◌++◌, length, map, arith,
  Option-cases, inl, inr, All,
}
use distributed_study.GeeRpc.Codec.{Header}
use distributed_study.GeeRpc.Service.{Service, MethodType, TypeInfo}
use distributed_study.GeeRpc.Service.Values.{elem_type, make_values}
use distributed_study.GeeRpc.Service.Values.Fitting.{make_values-some}
use distributed_study.GeeRpc.Server.{
  Argv, Error, read_body, Server, found, failed, find_service, Value, decoded, undecoded, Outcome,
  handle, respond, crashes, decode_argv, then_serve, read_request, serve_loop, serve_codec,
}
use distributed_study.GeeRpc.Server.Requests.{
  read_argv-made, read_request-found, read_request-failed, read_request-none, leaves_less,
}

-- A request that a client writes: the header and the argument.
pub record Request : Type 0 where
  pub header : Header
  pub header_value : Value
  pub argument : Value
  pub is_header : header_value.as_header ≡ some header

unfoldable pub stream : List Request → List Value
stream [] = []
stream (q ∷ qs) = q.header_value ∷ q.argument ∷ stream qs

-- What is to become of a request.
unfoldable pub outcome : Server → Request → Outcome
outcome server q = elim (find_service q.header.service_method server) [
  | failed e ↦ respond q.header e
  | found svc mtype ↦ elim (make_values mtype.method) [
    | none ↦ crashes q.header
    | some made ↦ elim (q.argument.as_argv mtype) [
      | undecoded why ↦ respond q.header (read_body why)
      | decoded argv ↦ handle q.header svc mtype argv
    ]
  ]
]

-- The method of a request exists, and its reply's type has an element type.
abbrev pub Finds : Server → Request → Type 0
Finds server q =
    (svc : Service) × ((mtype : MethodType) × ((find_service q.header.service_method server
          ≡ found svc mtype)
        × ((u : TypeInfo) × (elem_type mtype.method.reply_type ≡ some u))))

serve_loop-nil : (n : ℕ) (server : Server) → serve_loop n [] server ≡ []
unfolding serve_loop read_request
serve_loop-nil zero server = refl
serve_loop-nil (suc n) server = refl

serve_loop-none :
    (n : ℕ) (values : List Value) (server : Server)
    → read_request values server ≡ none
    → serve_loop n values server ≡ []
unfolding serve_loop
serve_loop-none zero values server e = refl
serve_loop-none (suc n) values server e = rw (serve_loop, e) refl

serve_loop-some :
    (n : ℕ) (values : List Value) (server : Server) (o : Outcome) (rest : List Value)
    → read_request values server ≡ some (o, rest)
    → serve_loop (suc n) values server ≡ then_serve o (serve_loop n rest server)
unfolding serve_loop
serve_loop-some n values server o rest e = rw (serve_loop, e) refl

-- Fuel for each value is enough.
serve_loop-agrees :
    (n m : ℕ) (values : List Value) (server : Server)
    → length values ≤ n
    → length values ≤ m
    → serve_loop n values server ≡ serve_loop m values server
serve_loop-agrees n m [] server a b = serve_loop-nil n server ∙ sym (serve_loop-nil m server)
serve_loop-agrees zero m (v ∷ vs) server a b = ground arith
serve_loop-agrees (suc n) zero (v ∷ vs) server a b = ground arith
serve_loop-agrees (suc n) (suc m) (v ∷ vs) server a b =
    elim (Option-cases (read_request (v ∷ vs) server)) [
      | inl over ↦
          serve_loop-none (suc n) (v ∷ vs) server over
          ∙ sym (serve_loop-none (suc m) (v ∷ vs) server over)
      | inr ((o, rest), e) ↦
          let less : length rest ≤ length vs = leaves_less v vs server o rest e in
          serve_loop-some n (v ∷ vs) server o rest e
          ∙ ap (then_serve o) (serve_loop-agrees n m rest server (omega arith) (omega arith))
          ∙ sym (serve_loop-some m (v ∷ vs) server o rest e)
    ]

-- One round of the loop.
serve_codec-step :
    (v : Value) (vs : List Value) (server : Server) (o : Outcome) (rest : List Value)
    → read_request (v ∷ vs) server ≡ some (o, rest)
    → serve_codec (v ∷ vs) server ≡ then_serve o (serve_codec rest server)
unfolding serve_codec
serve_codec-step v vs server o rest e =
    let less : length rest ≤ length vs = leaves_less v vs server o rest e in
    serve_loop-some (length vs) (v ∷ vs) server o rest e
    ∙ ap (then_serve o) (serve_loop-agrees (length vs) (length rest) rest server less (omega arith))

-- A request with values that are made does not end the process.
outcome-goes_on :
    (q : Request) (os : List Outcome) (server : Server)
    → Finds server q
    → then_serve (outcome server q) os ≡ outcome server q ∷ os
unfolding outcome then_serve
outcome-goes_on q os server (svc, (mtype, (f, (u, e)))) =
    let (argv, (made, fits)) = make_values-some mtype.method u e in
    rw (f, outcome) (rw made (go (q.argument.as_argv mtype)))
  where
    go :
        (a : Argv)
        → let o : Outcome = elim a [
          | undecoded why ↦ respond q.header (read_body why)
          | decoded argv ↦ handle q.header svc mtype argv
        ] in
          then_serve o os ≡ o ∷ os
    go (undecoded why) = refl
    go (decoded argv) = refl

serve_codec-found :
    (q : Request) (vs : List Value) (server : Server)
    → Finds server q
    → serve_codec (q.header_value ∷ q.argument ∷ vs) server
      ≡ outcome server q ∷ serve_codec vs server
unfolding outcome decode_argv
serve_codec-found q vs server (svc, (mtype, (f, (u, e)))) =
    let o : Outcome = outcome server q in
    let (argv, (made, fits)) = make_values-some mtype.method u e in
    serve_codec-step q.header_value (q.argument ∷ vs) server o vs (
      read_request-found q.header_value (q.argument ∷ vs) server q.header svc mtype q.is_header f
      ∙ ap some (
          read_argv-made q.header svc mtype (q.argument ∷ vs) u e ∙ rw (f, outcome) (rw made refl)))
    ∙ outcome-goes_on q (serve_codec vs server) server (svc, (mtype, (f, (u, e))))

serve_codec-stream :
    (qs : List Request) (vs : List Value) (server : Server)
    → All (Finds server) qs
    → serve_codec (stream qs ++ vs) server ≡ map (outcome server) qs ++ serve_codec vs server
unfolding stream
serve_codec-stream [] vs server h = refl
serve_codec-stream (q ∷ qs) vs server (finds, others) =
    serve_codec-found q (stream qs ++ vs) server finds
    ∙ ap (λ l. outcome server q ∷ l) (serve_codec-stream qs vs server others)

serve_codec-whole :
    (qs : List Request) (server : Server)
    → All (Finds server) qs
    → serve_codec (stream qs) server ≡ map (outcome server) qs
unfolding stream serve_codec
serve_codec-whole [] server h = serve_loop-nil 0 server
serve_codec-whole (q ∷ qs) server (finds, others) =
    serve_codec-found q (stream qs) server finds
    ∙ ap (λ l. outcome server q ∷ l) (serve_codec-whole qs server others)

-- Requests for methods that exist, whose reply types have an element type, are each handed to a
-- goroutine, or answered with an error where the argument cannot be read, in order. After them a
-- request for a method that does not exist is answered with its error and is the last: its
-- argument stays on the connection, and where the argument is not read as a header, the server
-- reads nothing behind it.
pub requests_served :
    (qs : List Request) (bad : Request) (behind : List Value) (server : Server) (why : Error)
    → All (Finds server) qs
    → find_service bad.header.service_method server ≡ failed why
    → bad.argument.as_header ≡ none
    → (serve_codec (stream qs) server ≡ map (outcome server) qs)
      × (serve_codec (stream qs ++ (stream (bad ∷ []) ++ behind)) server
          ≡ map (outcome server) qs ++ respond bad.header why ∷ [])
unfolding stream serve_codec then_serve
requests_served qs bad behind server why finds unknown no_header =
    let rest = bad.argument ∷ behind in
    let over : serve_codec rest server ≡ [] =
      serve_loop-none (length rest) rest server
        (read_request-none bad.argument behind server no_header) in
    (
      serve_codec-whole qs server finds,
      serve_codec-stream qs (bad.header_value ∷ rest) server finds
          ∙ ap (λ l. map (outcome server) qs ++ l)
              (serve_codec-step bad.header_value rest server (respond bad.header why) rest (
                  read_request-failed bad.header_value rest server bad.header why bad.is_header
                    unknown)
                ∙ ap (λ l. respond bad.header why ∷ l) over),
    )
