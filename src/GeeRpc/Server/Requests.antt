-- ===== src/GeeRpc/Server/Requests.antt =====
-- What the server reads as one request.
use distributed_study.Common.{
  ◌≤◌, ◌≡◌, ap, refl, ◌⊎◌, Option, none, some, List, [], ◌∷◌, length, arith, Option-cases, inl, inr,
}
use distributed_study.GeeRpc.Codec.{Header}
use distributed_study.GeeRpc.Service.{Service, MethodType, TypeInfo}
use distributed_study.GeeRpc.Service.Values.{elem_type, make_values}
use distributed_study.GeeRpc.Service.Values.Fitting.{make_values-some}
use distributed_study.GeeRpc.Server.{
  Error, Server, Found, found, failed, find_service, Value, Outcome, respond, decode_argv,
  read_argv, read_request,
}

decode_argv-shorter :
    (h : Header) (svc : Service) (mtype : MethodType) (values : List Value)
    → length (decode_argv h svc mtype values).1 ≤ length values
unfolding decode_argv
decode_argv-shorter h svc mtype [] = omega arith
decode_argv-shorter h svc mtype (v ∷ rest) = omega arith

pub read_argv-made :
    (h : Header) (svc : Service) (mtype : MethodType) (values : List Value) (u : TypeInfo)
    → elem_type mtype.method.reply_type ≡ some u
    → read_argv h svc mtype values ≡ decode_argv h svc mtype values
unfolding read_argv
read_argv-made h svc mtype values u e =
    let (argv, (made, fits)) = make_values-some mtype.method u e in rw (read_argv, made) refl

read_argv-shorter :
    (h : Header) (svc : Service) (mtype : MethodType) (values : List Value)
    → length (read_argv h svc mtype values).1 ≤ length values
unfolding read_argv
read_argv-shorter h svc mtype values = elim (Option-cases (make_values mtype.method)) [
  | inl none_made ↦ rw (read_argv, none_made) (omega arith)
  | inr (made, e) ↦ rw (read_argv, e) (decode_argv-shorter h svc mtype values)
]

pub Found-cases :
    (f : Found)
    → ((svc : Service) × ((mtype : MethodType) × (f ≡ found svc mtype)))
      ⊎ ((e : Error) × (f ≡ failed e))
Found-cases (found svc mtype) = inl (svc, (mtype, refl))
Found-cases (failed e) = inr (e, refl)

pub read_request-found :
    (v : Value) (rest : List Value) (server : Server) (h : Header) (svc : Service)
    (mtype : MethodType)
    → v.as_header ≡ some h
    → find_service h.service_method server ≡ found svc mtype
    → read_request (v ∷ rest) server ≡ some (read_argv h svc mtype rest)
unfolding read_request
read_request-found v rest server h svc mtype e f = rw e (rw f refl)

pub read_request-failed :
    (v : Value) (rest : List Value) (server : Server) (h : Header) (why : Error)
    → v.as_header ≡ some h
    → find_service h.service_method server ≡ failed why
    → read_request (v ∷ rest) server ≡ some (respond h why, rest)
unfolding read_request
read_request-failed v rest server h why e f = rw e (rw f refl)

pub read_request-none :
    (v : Value) (rest : List Value) (server : Server)
    → v.as_header ≡ none
    → read_request (v ∷ rest) server ≡ none
unfolding read_request
read_request-none v rest server e = rw e refl

-- What a request leaves on the connection.
abbrev left : Option (Outcome × List Value) → List Value
left none = []
left (some (o, rest)) = rest

read_request-shorter :
    (v : Value) (vs : List Value) (server : Server)
    → length (left (read_request (v ∷ vs) server)) ≤ length vs
read_request-shorter v vs server = elim (Option-cases v.as_header) [
  | inl broken ↦ rw (read_request-none v vs server broken) (omega arith)
  | inr (h, e) ↦ elim (Found-cases (find_service h.service_method server)) [
    | inl (svc, (mtype, f)) ↦
        rw (read_request-found v vs server h svc mtype e f) (read_argv-shorter h svc mtype vs)
    | inr (why, f) ↦ rw (read_request-failed v vs server h why e f) (omega arith)
  ]
]

pub leaves_less :
    (v : Value) (vs : List Value) (server : Server) (o : Outcome) (rest : List Value)
    → read_request (v ∷ vs) server ≡ some (o, rest)
    → length rest ≤ length vs
leaves_less v vs server o rest e =
    let left_same : length (left (read_request (v ∷ vs) server)) ≡ length rest =
      ap (λ q. length (left q)) e in
    let less = read_request-shorter v vs server in omega arith
