-- ===== src/GeeRpc/Server.antt =====
-- geerpc/server.go: the server, its services, and what it does with a connection.
--
-- The options come decoded, or as the error of the decoder. A connection is the list of the values
-- on it, each with what the decoder makes of it. The goroutines of `handleRequest` are a state with
-- steps, in `Handling`.
pub mod Handling
pub mod Finding
pub mod Requests
pub mod Streams
mod Tests
use distributed_study.Common.{
  ℕ, zero, suc, ◌+◌, Str, Dict, lookup, insert, Option, none, some, List, [], ◌∷◌, ◌++◌, Bool, true,
  false, not, ◌==◌, nat_key, str_key, bytes, if◌then◌else◌, take, drop, length, ◌>>=◌,
}
use distributed_study.GeeRpc.Codec.{Header}
use distributed_study.GeeRpc.Service.{Service, MethodType, MethodInfo, new_service}
use distributed_study.GeeRpc.Service.Values.{make_values}

pub data Error : Type 0 where
  ill_formed no_service no_method already_defined : Str → Error
  read_body : Str → Error

pub record Server : Type 0 where
  pub service_map : Dict Str Service

pub new_server : Server
new_server = record { service_map = [] }

-- `Register`, of a service that was made.
pub register : Service → Server → Option Error × Server
register s server = elim (lookup s.name server.service_map) [
  | some old ↦ (some (already_defined s.name), server)
  | none ↦ (none, record server { service_map = insert s.name s server.service_map })
]

-- `strings.LastIndex` of one byte.
unfoldable pub last_index : ℕ → Str → Option ℕ
last_index b [] = none
last_index b (c ∷ s) = elim (last_index b s) [
  | some i ↦ some (suc i)
  | none ↦ if c == b then some 0 else none
]

pub data Found : Type 0 where
  found : Service → MethodType → Found
  failed : Error → Found

-- The second half of `findService`: the service by its name, and its method.
unfoldable pub load_method : Str → Str → Server → Found
load_method service_name method_name server = elim (lookup service_name server.service_map) [
  | none ↦ failed (no_service service_name)
  | some svc ↦ elim (lookup method_name svc.methods) [
    | none ↦ failed (no_method method_name)
    | some mtype ↦ found svc mtype
  ]
]

unfoldable pub find_service : Str → Server → Found
find_service service_method server = elim (last_index b'.' service_method) [
  | none ↦ failed (ill_formed service_method)
  | some dot ↦ load_method (take dot service_method) (drop (dot + 1) service_method) server
]

-- An argument, or the decoder's error.
pub data Argv : Type 0 where
  decoded : Str → Argv
  undecoded : Str → Argv

-- A value on a connection: what the decoder makes of it where it is asked for a header, and where
-- it is asked for the argument of a method; an error skips the value.
pub record Value : Type 0 where
  pub as_header : Option Header
  pub as_argv : MethodType → Argv

-- A request that is handed to a goroutine, a response that reports an error, or the end of the
-- process by a panic of `reflect`.
pub data Outcome : Type 0 where
  handle : Header → Service → MethodType → Str → Outcome
  respond : Header → Error → Outcome
  crashes : Header → Outcome

-- `ReadBody` of the argument.
unfoldable pub decode_argv : Header → Service → MethodType → List Value → Outcome × List Value
decode_argv h svc mtype [] = (respond h (read_body (bytes "EOF")), [])
decode_argv h svc mtype (v ∷ rest) = (
  elim (v.as_argv mtype) [
    | undecoded why ↦ respond h (read_body why)
    | decoded argv ↦ handle h svc mtype argv
  ],
  rest,
)

-- The end of `readRequest`, for a method that was found: `newArgv` and `newReplyv`, which can panic,
-- and the body.
unfoldable pub read_argv : Header → Service → MethodType → List Value → Outcome × List Value
read_argv h svc mtype values = elim (make_values mtype.method) [
  | none ↦ (crashes h, values)
  | some made ↦ decode_argv h svc mtype values
]

-- `readRequest`, with the values that it leaves; `none` is a header that cannot be read. Where no
-- method is found, what follows the header stays on the connection.
unfoldable pub read_request : List Value → Server → Option (Outcome × List Value)
read_request [] server = none
read_request (v ∷ rest) server = do
  h ← v.as_header
  some (elim (find_service h.service_method server) [
    | failed e ↦ (respond h e, rest)
    | found svc mtype ↦ read_argv h svc mtype rest
  ])

-- What follows a request, where the process goes on.
unfoldable pub then_serve : Outcome → List Outcome → List Outcome
then_serve (handle h svc mtype argv) os = handle h svc mtype argv ∷ os
then_serve (respond h e) os = respond h e ∷ os
then_serve (crashes h) os = crashes h ∷ []

-- The loop of `serveCodec`, on fuel.
unfoldable pub serve_loop : ℕ → List Value → Server → List Outcome
serve_loop zero values server = []
serve_loop (suc n) values server = elim (read_request values server) [
  | none ↦ []
  | some (o, rest) ↦ then_serve o (serve_loop n rest server)
]

-- A round reads one value at least.
unfoldable pub serve_codec : List Value → Server → List Outcome
serve_codec values server = serve_loop (length values) values server

pub record ConnOption : Type 0 where
  pub magic_number : ℕ
  pub codec_type : Str

-- `ServeConn`: what is served, once the options are accepted.
unfoldable pub serve_conn : Option ConnOption → List Value → Server → List Outcome
serve_conn none values server = []
serve_conn (some opt) values server =
    if not (opt.magic_number == 0x3bef5c)
    then []
    else (if not (opt.codec_type == bytes "application/god") then [] else serve_codec values server)
