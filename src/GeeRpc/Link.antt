-- ===== src/GeeRpc/Link.antt =====
-- geerpc/client.go and server.go: a client and a server at the two ends of a connection.
--
-- `requests` are the values that the client has written and the server has not read, `responses`
-- what the server has written and the client has not read, `written` all that the server wrote, and
-- `taken` the headers of the requests that it read. A write that fails closes the connection below
-- the server, and later writes fail too. A panic ends the process, whose connection is then closed by
-- the system; a method may panic at any time.
-- `writing` is the argument of the call in `send`. Services do not change while a connection lasts.
-- A method is a function, which gives the error and the reply; the encoder's values for a header and
-- an argument are functions too. A header or an argument whose write fails is not read.
pub mod Returned
pub mod OpenOrOver
pub mod Answering
pub mod Accounts
pub mod Closing
pub mod Invariant
pub mod Working
pub mod Sound
pub mod Moving
pub mod Reading
pub mod Replies
pub mod OneCall
mod Tests
use distributed_study.Common.{
  ℕ, zero, suc, ◌-◌, Str, Option, none, some, List, [], ◌∷◌, ◌++◌, Bool, true, false, not, ◌&&◌,
  if◌then◌else◌, length, take, map, bytes,
}
use distributed_study.GeeRpc.Codec.{Header}
use distributed_study.GeeRpc.Service.{Service, MethodType, MethodInfo}
use distributed_study.GeeRpc.Client
use distributed_study.GeeRpc.Client.{Client, Body, body, broken, new_client_codec, receiving}
use distributed_study.GeeRpc.Server
use distributed_study.GeeRpc.Server.{
  Server, Value, Outcome, handle, respond, crashes, ill_formed, no_service, no_method,
  already_defined, read_body, read_request,
}
use distributed_study.GeeRpc.Server.Handling
use distributed_study.GeeRpc.Server.Handling.{
  Handling, Waiter, awaits_called, awaits_sent, returned, start_handling, handling_step,
}

-- A request whose goroutine was started.
pub record Job : Type 0 where
  pub header : Header
  pub svc : Service
  pub mtype : MethodType
  pub argv : Str
  pub handling : Handling

-- A body of `none` is `invalidRequest`.
pub record Response : Type 0 where
  pub header : Header
  pub body : Option Str

pub record Link : Type 0 where
  pub client : Client
  pub writing : Str
  pub requests : List Value
  -- whether the loop of `serveCodec` goes on
  pub serving : Bool
  pub jobs : List Job
  pub responses : List Response
  pub written : List Response
  pub taken : List Header
  -- whether the server has closed the connection, a write has failed, or the process has ended
  pub closed : Bool
  pub cut : Bool
  pub crashed : Bool

unfoldable pub start_link : Link
start_link = record {
  client = new_client_codec;
  writing = [];
  requests = [];
  serving = true;
  jobs = [];
  responses = [];
  written = [];
  taken = [];
  closed = false;
  cut = false;
  crashed = false;
}

pub data Action : Type 0 where
  -- the client: `Go` up to the write, the write, a response that is read, and the rest as there
  begins : Str → Str → Action
  writes : Option Client.Error → Action
  -- with the decoder's error for the body
  delivers : Option Str → Action
  breaks : Str → Action
  terminates closes : Action
  cancels : ℕ → Action
  -- the server: a round of `serveCodec`, a header that cannot be read, a step of the i-th request's
  -- goroutines, and what follows the loop
  reads loses : Action
  -- a write of a response fails, and a method panics
  cuts panics : Action
  works : ℕ → Handling.Action → Action
  finishes : Action

-- `err.Error()`.
unfoldable pub error_text : Server.Error → Str
error_text (ill_formed s) = bytes "rpc server: service/method request ill-formed: " ++ s
error_text (no_service s) = bytes "rpc server: can't find service " ++ s
error_text (no_method s) = bytes "rpc server: can't find method " ++ s
error_text (already_defined s) = bytes "rpc: service already defined: " ++ s
error_text (read_body s) = s

-- What of the responses is written.
unfoldable pub put : Bool → List Response → List Response
put cut rs = if cut then [] else rs

-- `sendResponse`.
unfoldable pub send_responses : List Response → Link → Link
send_responses rs s = record s {
  responses = s.responses ++ put s.cut rs;
  written = s.written ++ put s.cut rs;
}

-- The process ends.
unfoldable pub crash : Link → Link
crash s = record s { serving = false; jobs = []; crashed = true }

-- The wait group at zero: every goroutine that waits for its request has returned.
unfoldable pub is_returned : Waiter → Bool
is_returned awaits_called = false
is_returned awaits_sent = false
is_returned returned = true

unfoldable pub all_returned : List Job → Bool
all_returned [] = true
all_returned (j ∷ js) = is_returned j.handling.waiter && all_returned js

-- What `ReadBody` makes of the body behind a header with the error; `ReadBody(nil)` takes any.
unfoldable pub read_reply : Option Str → Str → Option Str → Body
read_reply (some why) e b = broken why
read_reply none e (some b) = body b
read_reply none [] none = broken (bytes "gob: type mismatch")
read_reply none (x ∷ e) none = body []

-- What does not change: the services, the methods, `HandleTimeout` and the encoder.
pub record Setting : Type 0 where
  pub server : Server
  pub invoke : Str → MethodInfo → Str → Option Str × Str
  pub timeout : ℕ
  pub header_value : Header → Value
  pub argument : Str → Value

module _ (setting : Setting) where
  abbrev pub invoked : Job → Option Str × Str
  invoked j = setting.invoke j.svc.name j.mtype.method j.argv

  -- The method returns its own error.
  abbrev pub own : Job → Handling.Action → Handling.Action
  own j (Handling.call_returns e) = Handling.call_returns (invoked j).0
  own j a = a

  -- The timer's response has no reply.
  abbrev pub body_of : Job → Handling.Action → Option Str
  body_of j Handling.timer = none
  body_of j a = some (invoked j).1

  abbrev pub response : Job → Handling.Action → Option Str → Response
  response j a none = record { header = j.header; body = body_of j a }
  response j a (some e) = record { header = record j.header { error = e }; body = body_of j a }

  unfoldable pub job_step : Handling.Action → Job → Job
  job_step a j = record j { handling = handling_step (own j a) j.handling }

  -- The responses of a step.
  unfoldable pub job_responses : Handling.Action → Job → List Response
  job_responses a j =
      let after = (job_step a j).handling.responses in
      map (response j a) (take (length after - length j.handling.responses) after)

  unfoldable pub work : ℕ → Handling.Action → List Job → List Job × List Response
  work i a [] = ([], [])
  work zero a (j ∷ js) = (job_step a j ∷ js, job_responses a j)
  work (suc i) a (j ∷ js) = let (js', rs) = work i a js in (j ∷ js', rs)

  -- `readRequest` and what the loop does with the request.
  unfoldable pub serve : Outcome → Link → Link
  serve (respond h e) s =
      send_responses (record { header = record h { error = error_text e }; body = none } ∷ [])
        (record s { taken = s.taken ++ h ∷ [] })
  serve (crashes h) s = crash s
  serve (handle h svc mtype argv) s = record s {
    taken = s.taken ++ h ∷ [];
    jobs =
        s.jobs
        ++ record {
          header = h;
          svc = svc;
          mtype = mtype;
          argv = argv;
          handling = start_handling setting.timeout;
        }
          ∷ [];
  }

  unfoldable pub read : Link → Link
  read s = elim (read_request s.requests setting.server) [
    | none ↦ record s { serving = false }
    | some (o, rest) ↦ serve o (record s { requests = rest })
  ]

  -- Nothing is read before the client has written.
  unfoldable pub read_next : List Value → Link → Link
  read_next [] s = s
  read_next (v ∷ vs) s = read s

  -- The receiver is in its loop.
  unfoldable pub deliver : Option Str → List Response → Link → Link
  deliver why [] s = s
  deliver why (r ∷ rest) s = record s {
    responses = rest;
    client = Client.receive_one r.header (read_reply why r.header.error r.body) s.client;
  }

  -- What is not admitted changes nothing.
  unfoldable pub step : Action → Link → Link
  step (begins service_method args) s = elim s.client.sender [
    | some n ↦ s
    | none ↦ record s { client = Client.begin_send service_method args s.client; writing = args }
  ]
  step (writes e) s = elim s.client.sender [
    | none ↦ s
    | some n ↦ record s {
      client = Client.end_send e n s.client;
      requests = elim e [
        | none ↦
            s.requests ++ setting.header_value s.client.header ∷ setting.argument s.writing ∷ []
        | some why ↦ s.requests
      ];
    }
  ]
  step (delivers why) s = elim s.client.receiver [ receiving ↦ deliver why s.responses s | _ ↦ s ]
  step (breaks why) s = record s { client = Client.step (Client.breaks why) s.client }
  step terminates s = record s { client = Client.step Client.terminates s.client }
  step closes s = record s { client = Client.step Client.closes s.client }
  step (cancels n) s = record s { client = Client.step (Client.cancels n) s.client }
  step reads s = if s.serving then read_next s.requests s else s
  step loses s = record s { serving = false }
  step (works i a) s = let (js, rs) = work i a s.jobs in send_responses rs (record s { jobs = js })
  step cuts s = record s { cut = true }
  step panics s = crash s
  step finishes s =
      if not s.crashed && (not s.serving && all_returned s.jobs)
      then record s { closed = true }
      else s

  unfoldable pub run : List Action → Link → Link
  run [] s = s
  run (a ∷ actions) s = run actions (step a s)
