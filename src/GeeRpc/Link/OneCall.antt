-- ===== src/GeeRpc/Link/OneCall.antt =====
-- One call, from its start to its reply.
use distributed_study.Common.{
  Bool, true, ◌≡◌, ◌∙◌, ap, refl, Str, lookup, insert, erase, str_beq, str_key, nat_key, Option,
  none, some, List, [], ◌∷◌, false,
}
use distributed_study.GeeRpc.Codec.{Header}
use distributed_study.GeeRpc.Service.{MethodType, Service, TypeInfo}
use distributed_study.GeeRpc.Service.Values.{calls_safely}
use distributed_study.GeeRpc.Service.Values.Fitting.{calls_safely-elem_type}
use distributed_study.GeeRpc.Client
use distributed_study.GeeRpc.Client.{new_client_codec}
use distributed_study.GeeRpc.Server.{
  found, decoded, find_service, decode_argv, read_request, handle, Outcome, Value,
}
use distributed_study.GeeRpc.Server.Requests.{read_request-found, read_argv-made}
use distributed_study.GeeRpc.Server.Handling
use distributed_study.GeeRpc.Server.Handling.{
  Worker, calling, sends_called, start_handling, handling_step, return_call, pass_called,
  respond_call, pass_sent,
}
use distributed_study.GeeRpc.Link.{
  Setting, Link, Job, Action, start_link, put, send_responses, read_reply, job_step, job_responses,
  work, serve, read, read_next, deliver, step, run,
}

abbrev pub meeting : List Action
meeting =
    Action.works 0 Handling.meet_called
    ∷ Action.works 0 Handling.send_response
    ∷ Action.works 0 Handling.meet_sent
    ∷ Action.delivers none
    ∷ []

abbrev pub answering : List Action
answering = Action.works 0 (Handling.call_returns none) ∷ meeting

-- The client's send, the server's read, the steps of its goroutines, and the client's receipt.
abbrev pub schedule : Str → Str → List Action
schedule service_method args =
    Action.begins service_method args ∷ Action.writes none ∷ Action.reads ∷ answering

-- What a client gets for the error and the reply of a method: the error is made anew, with the text as
-- a format.
unfoldable pub reply_of : Option Str → Str → Option Str
reply_of none b = some b
reply_of (some []) b = some b
reply_of (some (x ∷ e)) b = none

unfoldable pub error_of : Option Str → Option Client.Error
error_of none = none
error_of (some []) = none
error_of (some (x ∷ e)) = some (Client.formatted (x ∷ e))

module _ (setting : Setting) (service_method args : Str) (svc : Service) (mtype : MethodType)
    (reads_header : (h : Header) → (setting.header_value h).as_header ≡ some h)
    (reads_argv : (setting.argument args).as_argv mtype ≡ decoded args)
    (implements : TypeInfo → TypeInfo → Bool) (safe : calls_safely implements mtype.method ≡ true)
    (finds : find_service service_method setting.server ≡ found svc mtype) where
  header : Header
  header = record { service_method = service_method; seq = 1; error = [] }

  requested :
      read_request (setting.header_value header ∷ setting.argument args ∷ []) setting.server
      ≡ some (handle header svc mtype args, [])
  unfolding header decode_argv
  requested =
      let (u, has) = calls_safely-elem_type implements mtype.method safe in
      read_request-found (setting.header_value header) (setting.argument args ∷ []) setting.server
        header svc mtype (reads_header header) finds
      ∙ ap some
          (read_argv-made header svc mtype (setting.argument args ∷ []) u has ∙ rw reads_argv refl)

  sent : Link
  sent = run setting (Action.begins service_method args ∷ Action.writes none ∷ []) start_link

  -- The request's goroutines, with the method's goroutine at a place.
  job_at : Worker → Job
  job_at worker = record {
    header = header;
    svc = svc;
    mtype = mtype;
    argv = args;
    handling = record (start_handling setting.timeout) { worker = worker };
  }

  taken : Worker → Link
  taken worker = record sent { requests = []; jobs = job_at worker ∷ []; taken = header ∷ [] }

  reads_sent : step setting Action.reads sent ≡ taken calling
  unfolding header sent job_at taken start_link start_handling serve read read_next step run
      new_client_codec Client.begin_send Client.end_send Client.register_call insert
  reads_sent = ap (read_outcome sent) requested
    where
      read_outcome : Link → Option (Outcome × List Value) → Link
      read_outcome s none = record s { serving = false }
      read_outcome s (some (o, rest)) = serve setting o (record s { requests = rest })

  module _ (e : Option Str) (b : Str)
      (outcome : setting.invoke svc.name mtype.method args ≡ (e, b)) where
    taken_returns :
        step setting (Action.works 0 (Handling.call_returns none)) (taken calling)
        ≡ taken (sends_called e)
    unfolding header sent job_at taken start_link put send_responses job_step job_responses work
        step run start_handling handling_step return_call new_client_codec Client.begin_send
        Client.end_send Client.register_call insert
    taken_returns = ap (λ (r : Option Str × Str). taken (sends_called r.0)) outcome

  one_call_steps :
      (e : Option Str) (b : Str)
      → setting.invoke svc.name mtype.method args ≡ (e, b)
      → run setting (schedule service_method args) start_link
        ≡ run setting meeting (taken (sends_called e))
  unfolding run sent
  one_call_steps e b outcome =
      ap (run setting answering) reads_sent ∙ ap (run setting meeting) (taken_returns e b outcome)

  replies_at :
      (e : Option Str)
      → let c = (run setting meeting (taken (sends_called e))).client in
        ((c.calls 0).reply ≡ reply_of e (setting.invoke svc.name mtype.method args).1)
        × (((c.calls 0).error ≡ error_of e) × (c.signals ≡ 0 ∷ []))
  unfolding header sent job_at taken start_link put send_responses read_reply job_step job_responses
      work deliver step run start_handling handling_step return_call pass_called respond_call
      pass_sent lookup insert erase str_beq new_client_codec Client.begin_send Client.end_send
      Client.receive_one Client.deliver Client.done Client.set_error Client.set_reply
      Client.register_call Client.remove_call reply_of error_of
  replies_at none = (refl, (refl, refl))
  replies_at (some []) = (refl, (refl, refl))
  replies_at (some (x ∷ e)) = (refl, (refl, refl))

  -- A client that calls a method that the server finds, and whose call by reflect does not
  -- panic, gets one signal, on a new connection where the client sends, the server reads,
  -- calls and responds, and the client receives: with the method's reply and no error where
  -- the method has none, or one without a text, and otherwise with no reply and the error that
  -- fmt.Errorf makes of the text of the method's error as a format. Header and argument are
  -- read as they were written.
  pub one_call :
      (e : Option Str) (b : Str)
      → setting.invoke svc.name mtype.method args ≡ (e, b)
      → let c = (run setting (schedule service_method args) start_link).client in
        ((c.calls 0).reply ≡ reply_of e b)
        × (((c.calls 0).error ≡ error_of e) × (c.signals ≡ 0 ∷ []))
  one_call e b outcome =
      let there : run setting (schedule service_method args) start_link
          ≡ run setting meeting (taken (sends_called e)) =
        one_call_steps e b outcome in
      let (replies, (errors, signals)) = replies_at e in
      (
        ap (λ (s : Link). (s.client.calls 0).reply) there
            ∙ (replies ∙ ap (λ (r : Option Str × Str). reply_of e r.1) outcome),
        (
          ap (λ (s : Link). (s.client.calls 0).error) there ∙ errors,
          ap (λ (s : Link). s.client.signals) there ∙ signals,
        ),
      )
