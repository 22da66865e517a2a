-- ===== src/Zinx/MsgHandler.antt =====
-- myzinx/znet/msghandler.go, request.go and router.go: the routers by message id, and the workers.
--
-- A router is a number; what it does is the three calls that are recorded. A channel is a number
-- with the requests in it, and each channel that was made has its worker. `SendMsgToTaskQueue` is
-- called by the reader of a connection, and looks at its slot, makes a channel where the slot is
-- nil, and then sends to the channel that the slot has by then; other readers may come between.
pub mod Ordered
pub mod Order
pub mod Bounds
mod Tests
use distributed_study.Common.{
  ℕ, ◌+◌, ◌%◌, Dict, lookup, insert, Option, none, some, List, [], ◌∷◌, ◌++◌, Bool, true, false,
  not, ◌&&◌, ◌==◌, nat_key, ltb, length, if◌then◌else◌,
}
use distributed_study.Zinx.Message.{Message}

pub record Request : Type 0 where
  pub conn_id : ℕ
  pub msg : Message

pub data Event : Type 0 where
  pre_handle handle post_handle : ℕ → Request → Event

-- The reader of a connection: outside `SendMsgToTaskQueue`, before the `make` of it, or before its
-- send.
pub data Sender : Type 0 where
  idle : Sender
  makes sends : Request → Sender

pub record MsgHandle : Type 0 where
  pub apis : Dict ℕ ℕ
  pub worker_pool_size : ℕ
  pub max_task_len : ℕ
  pub is_open : Bool
  -- the slots of `TaskQueue` that are not nil
  pub task_queue : Dict ℕ ℕ
  pub channels : ℕ → List Request
  pub next_channel : ℕ
  pub senders : ℕ → Sender
  -- the requests that were sent, and those that workers took, in order
  pub called : List Request
  pub taken : List Request
  pub events : List Event

unfoldable pub new_msg_handle : ℕ → ℕ → MsgHandle
new_msg_handle worker_pool_size max_task_len = record {
  apis = [];
  worker_pool_size = worker_pool_size;
  max_task_len = max_task_len;
  is_open = false;
  task_queue = [];
  channels = λ _. [];
  next_channel = 0;
  senders = λ _. idle;
  called = [];
  taken = [];
  events = [];
}

-- What `DoMsgHandle` does for a request.
unfoldable pub do_msg_handle : Request → MsgHandle → List Event
do_msg_handle req mh = elim (lookup req.msg.id mh.apis) [
  | none ↦ []
  | some router ↦ pre_handle router req ∷ handle router req ∷ post_handle router req ∷ []
]

-- A second router for an id panics.
unfoldable pub add_router : ℕ → ℕ → MsgHandle → Option MsgHandle
add_router msg_id router mh = elim (lookup msg_id mh.apis) [
  | some old ↦ none
  | none ↦ some (record mh { apis = insert msg_id router mh.apis })
]

unfoldable pub start_worker_pool : MsgHandle → MsgHandle
start_worker_pool mh = if mh.is_open then mh else record mh { is_open = true }

abbrev pub set : {A : Type 0} → (ℕ → A) → ℕ → A → ℕ → A
set f i a j = if i == j then a else f j

-- The slot of a connection; a pool of no workers divides by zero, which panics.
abbrev pub worker_id : ℕ → MsgHandle → ℕ
worker_id conn_id mh = conn_id % mh.worker_pool_size

-- Up to the test of the slot.
unfoldable pub begin_send : Request → MsgHandle → MsgHandle
begin_send req mh = record mh {
  called = mh.called ++ req ∷ [];
  senders = set mh.senders req.conn_id (elim (lookup (worker_id req.conn_id mh) mh.task_queue) [
    | none ↦ makes req
    | some q ↦ sends req
  ]);
}

-- The `make`, with the start of the worker.
unfoldable pub make_queue : Request → MsgHandle → MsgHandle
make_queue req mh = record mh {
  task_queue = insert (worker_id req.conn_id mh) mh.next_channel mh.task_queue;
  next_channel = mh.next_channel + 1;
  senders = set mh.senders req.conn_id (sends req);
}

-- The send, which waits while the channel is full.
unfoldable pub end_send : Request → MsgHandle → MsgHandle
end_send req mh = elim (lookup (worker_id req.conn_id mh) mh.task_queue) [
  | none ↦ mh
  | some q ↦
      if ltb (length (mh.channels q)) mh.max_task_len
      then record mh {
        channels = set mh.channels q (mh.channels q ++ req ∷ []);
        senders = set mh.senders req.conn_id idle;
      }
      else mh
]

-- A worker takes the first request of its channel and handles it.
unfoldable pub take_one : ℕ → MsgHandle → MsgHandle
take_one q mh = elim (mh.channels q) [
  | [] ↦ mh
  | req ∷ rest ↦ record mh {
    channels = set mh.channels q rest;
    taken = mh.taken ++ req ∷ [];
    events = mh.events ++ do_msg_handle req mh;
  }
]

pub data Action : Type 0 where
  -- a reader calls `SendMsgToTaskQueue`, and goes on in it
  calls : ℕ → Message → Action
  goes_on : ℕ → Action
  -- the worker of a channel takes a request
  works : ℕ → Action

unfoldable pub go_on : Sender → MsgHandle → MsgHandle
go_on idle mh = mh
go_on (makes req) mh = make_queue req mh
go_on (sends req) mh = end_send req mh

unfoldable pub step : Action → MsgHandle → MsgHandle
step (calls conn_id msg) mh = elim (mh.senders conn_id) [
  | idle ↦ begin_send (record { conn_id = conn_id; msg = msg }) mh
  | _ ↦ mh
]
step (goes_on conn_id) mh = go_on (mh.senders conn_id) mh
step (works q) mh = take_one q mh

unfoldable pub run : List Action → MsgHandle → MsgHandle
run [] mh = mh
run (a ∷ rest) mh = run rest (step a mh)
