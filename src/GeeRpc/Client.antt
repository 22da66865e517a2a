-- ===== src/GeeRpc/Client.antt =====
-- geerpc/client.go: the client, its pending calls, and the goroutines that share them.
--
-- A `*Call` is a number, and `calls` is the store behind the pointers. `signals` lists the calls
-- that `done` was called on, in order. The critical sections under `mu` are functions; an `Action`
-- is what runs between two points where another goroutine may come in. `sender` is the number
-- under which the holder of the lock `sending` is writing.
pub mod Accounts
pub mod Balance
pub mod Signals
pub mod Steps
pub mod History
pub mod Replies
pub mod Tracking
mod Tests
use distributed_study.Common.{
  ℕ, zero, suc, ◌+◌, ◌%◌, ◌^◌, Str, Dict, lookup, insert, erase, Option, none, some, List, [], ◌∷◌,
  ◌++◌, bytes, map, Bool, true, false, not, ◌&&◌, ◌||◌, ◌==◌, nat_key, str_key, leb, if◌then◌else◌,
}
use distributed_study.GeeRpc.Codec.{Header}

pub data Error : Type 0 where
  shut_down : Error
  -- `fmt.Errorf` of the format, without arguments: what stands behind a `%` is not as it was
  formatted : Str → Error
  reading_body : Str → Error
  transport : Str → Error

pub record Call : Type 0 where
  pub seq : ℕ
  pub service_method : Str
  pub args : Str
  pub reply : Option Str
  pub error : Option Error

-- The goroutine `receive`: in its loop, behind it with an error, or ended.
pub data Receiver : Type 0 where
  receiving : Receiver
  failed : Error → Receiver
  ended : Receiver

pub record Client : Type 0 where
  pub header : Header
  pub seq : ℕ
  pub pending : Dict ℕ ℕ
  pub closing : Bool
  pub shutdown : Bool
  pub sender : Option ℕ
  pub receiver : Receiver
  pub calls : ℕ → Call
  pub next_call : ℕ
  pub signals : List ℕ

unfoldable pub new_client_codec : Client
new_client_codec = record {
  header = record { service_method = []; seq = 0; error = [] };
  seq = 1;
  pending = [];
  closing = false;
  shutdown = false;
  sender = none;
  receiver = receiving;
  calls = λ _. record { seq = 0; service_method = []; args = []; reply = none; error = none };
  next_call = 0;
  signals = [];
}

unfoldable pub is_available : Client → Bool
is_available c = not c.closing && not c.shutdown

-- `Close`: a second call is refused.
unfoldable pub close : Client → Option Error × Client
close c = if c.closing then (some shut_down, c) else (none, record c { closing = true })

-- How often a call is on its `Done` channel.
abbrev pub signals_of : ℕ → List ℕ → ℕ
signals_of r [] = 0
signals_of r (q ∷ l) = (if q == r then 1 else 0) + signals_of r l

abbrev pub update : (ℕ → Call) → ℕ → Call → ℕ → Call
update calls r call q = if r == q then call else calls q

-- `call.done()`.
unfoldable pub done : ℕ → Client → Client
done r c = record c { signals = c.signals ++ r ∷ [] }

unfoldable pub set_error : ℕ → Error → Client → Client
set_error r e c = record c { calls = update c.calls r (record (c.calls r) { error = some e }) }

unfoldable pub set_reply : ℕ → Str → Client → Client
set_reply r body c = record c {
  calls = update c.calls r (record (c.calls r) { reply = some body });
}

-- `registerCall`: the number, or none for `ErrShutdown`.
unfoldable pub register_call : ℕ → Client → Option ℕ × Client
register_call r c = if c.closing || c.shutdown then (none, c) else (
  some c.seq,
  record c {
    calls = update c.calls r (record (c.calls r) { seq = c.seq });
    pending = insert c.seq r c.pending;
    seq = (c.seq + 1) % 2 ^ 64;
  },
)

unfoldable pub remove_call : ℕ → Client → Option ℕ × Client
remove_call n c = (lookup n c.pending, record c { pending = erase n c.pending })

-- The loop of `terminateCalls` over the pending calls.
pub fail_all : Error → Dict ℕ ℕ → Client → Client
fail_all e [] c = c
fail_all e ((_, r) ∷ rest) c = fail_all e rest (done r (set_error r e c))

pub terminate_calls : Error → Client → Client
terminate_calls e c = fail_all e c.pending (record c { shutdown = true })

-- The room of the channel that `Go` uses, for nil or a channel of some room; `none` is its panic.
unfoldable pub done_room : Option ℕ → Option ℕ
done_room none = some 10
done_room (some room) = if room == 0 then none else some room

-- `Go` makes the call, and `send` takes the lock, registers the call and prepares the header.
unfoldable pub begin_send : Str → Str → Client → Client
begin_send service_method args c =
    let r = c.next_call in
    let made = record c {
      calls = update c.calls r (record {
        seq = 0;
        service_method = service_method;
        args = args;
        reply = none;
        error = none;
      });
      next_call = r + 1;
    } in
    let (number, c') = register_call r made in
    elim number [
      | none ↦ done r (set_error r shut_down c')
      | some n ↦ record c' {
        header = record { service_method = service_method; seq = n; error = [] };
        sender = some n;
      }
    ]

-- The rest of `send`, once `cc.Write` has returned.
unfoldable pub end_send : Option Error → ℕ → Client → Client
end_send none n c = record c { sender = none }
end_send (some e) n c =
    let (removed, c') = remove_call n c in
    let c'' = record c' { sender = none } in
    elim removed [ none ↦ c'' | some r ↦ done r (set_error r e c'') ]

-- One round of `receive`: the header that was read, and the body or the error of `ReadBody`.
pub data Body : Type 0 where
  body : Str → Body
  broken : Str → Body

abbrev after_body : Body → Client → Client
after_body (body _) c = c
after_body (broken why) c = record c { receiver = failed (transport why) }

-- The last case: the body goes to the reply of the call.
unfoldable pub deliver : ℕ → Body → Client → Client
deliver r (body b) c = done r (set_reply r b c)
deliver r (broken why) c = done r (set_error r (reading_body why) c)

unfoldable pub receive_one : Header → Body → Client → Client
unfolding deliver
receive_one h b c =
    let (call, c') = remove_call h.seq c in
    after_body b (elim call [
      | none ↦ c'
      | some r ↦
          if h.error == [] then deliver r b c' else done r (set_error r (formatted h.error) c')
    ])

-- `Call`: it first receives from `Done`, then waits for the context or for `Done` once more.
pub data Waiting : Type 0 where
  sent received cancelled : Waiting
  replied : Option Error → Waiting

-- What a look at the channels makes of a waiting `Call`; a signal is received once.
pub wait_call : Bool → ℕ → Client → Waiting → Waiting
wait_call ctx_done r c sent = if leb 1 (signals_of r c.signals) then received else sent
wait_call ctx_done r c received =
    if ctx_done
    then cancelled
    else (if leb 2 (signals_of r c.signals) then replied (c.calls r).error else received)
wait_call ctx_done r c cancelled = cancelled
wait_call ctx_done r c (replied e) = replied e

pub data Action : Type 0 where
  -- `Go`, up to the write.
  begins : Str → Str → Action
  -- The write returns.
  writes : Option Error → Action
  -- `receive` reads a header with its body, or fails to read one.
  receives : Header → Body → Action
  breaks : Str → Action
  -- `receive` leaves its loop and calls `terminateCalls`, which waits for both locks.
  terminates : Action
  closes : Action
  -- The context of a `Call` is done.
  cancels : ℕ → Action

-- An action that the locks or the goroutine's place do not admit changes nothing.
pub step : Action → Client → Client
step (begins service_method args) c = elim c.sender [
  | none ↦ begin_send service_method args c
  | some n ↦ c
]
step (writes e) c = elim c.sender [ none ↦ c | some n ↦ end_send e n c ]
step (receives h b) c = elim c.receiver [ receiving ↦ receive_one h b c | _ ↦ c ]
step (breaks why) c = elim c.receiver [
  | receiving ↦ record c { receiver = failed (transport why) }
  | _ ↦ c
]
step terminates c = elim c.sender [
  | some n ↦ c
  | none ↦ elim c.receiver [ failed e ↦ record (terminate_calls e c) { receiver = ended } | _ ↦ c ]
]
step closes c = (close c).1
step (cancels n) c = (remove_call n c).1

pub run : List Action → Client → Client
run [] c = c
run (a ∷ as_left) c = run as_left (step a c)
