-- ===== src/Zinx/Demo/Answered.antt =====
-- A client gets the answer of the router for its message.
use distributed_study.Common.{
  ℕ, ◌%◌, ◌^◌, ◌≤◌, ◌<◌, ◌≡◌, ◌∙◌, ap, refl, sym, Str, Dict, lookup, insert, Option, none, some,
  List, [], ◌∷◌, ◌++◌, true, false, length, ◌==◌, nat_key, ltb, arith,
}
use mathlib.Core.List.{append-nil, append_assoc}
use distributed_study.Zinx.DataPack.Stream.{concat}
use distributed_study.Zinx.Message.{Message, new_msg_package}
use distributed_study.Zinx.DataPack.{ok, pack, unpack}
use distributed_study.Zinx.DataPack.RoundTrip.{unpack-pack}
use distributed_study.Zinx.Connection
use distributed_study.Zinx.Connection.{new_connection}
use distributed_study.Zinx.MsgHandler
use distributed_study.Zinx.MsgHandler.{
  Request, Sender, idle, makes, sends, MsgHandle, calls, goes_on, works, worker_id, do_msg_handle,
  new_msg_handle, begin_send, make_queue, end_send, take_one, go_on, set,
}
use distributed_study.Zinx.Demo.{sent_by, writes_of, exchange}

-- The handler of a server that was started, before the first request.
abbrev pub fresh : ℕ → ℕ → Dict ℕ ℕ → MsgHandle
fresh size max_task_len apis = record (new_msg_handle size max_task_len) {
  apis = apis;
  is_open = true;
}

set_same : {A : Type 0} (f : ℕ → A) (i : ℕ) (a : A) → set f i a i ≡ a
set_same f i a = let same : (i == i) ≡ true = ground arith in rw same refl

module _ (size max_task_len c : ℕ) (apis : Dict ℕ ℕ) (msg : Message) where
  abbrev req : Request
  req = record { conn_id = c; msg = msg }

  begun : MsgHandle
  begun = begin_send req (fresh size max_task_len apis)

  queued : MsgHandle
  queued = make_queue req begun

  waiting : MsgHandle
  waiting = record queued {
    channels = set queued.channels 0 (req ∷ []);
    senders = set queued.senders c idle;
  }

  -- The three steps of the reader.
  begun_makes : begun.senders c ≡ makes req
  unfolding begun begin_send new_msg_handle lookup
  begun_makes = set_same (fresh size max_task_len apis).senders c (makes req)

  queued_sends : queued.senders c ≡ sends req
  unfolding begun queued begin_send make_queue new_msg_handle lookup
  queued_sends = set_same begun.senders c (sends req)

  queue_there : lookup (worker_id c queued) queued.task_queue ≡ some 0
  unfolding begun queued begin_send make_queue new_msg_handle insert lookup
  queue_there = let slot : (c % size == c % size) ≡ true = ground arith in rw slot refl

  sent_waiting : 0 < max_task_len → end_send req queued ≡ waiting
  unfolding begun queued waiting begin_send make_queue end_send new_msg_handle
  sent_waiting room =
      let free : ltb 0 max_task_len ≡ true = ground arith in
      rw (queue_there, end_send) (rw free refl)

  handled :
      0 < max_task_len
      → let mh = fresh size max_task_len apis in
        (MsgHandler.run (calls c msg ∷ goes_on c ∷ goes_on c ∷ works 0 ∷ []) mh).events
        ≡ do_msg_handle req mh
  unfolding MsgHandler.run MsgHandler.step take_one go_on do_msg_handle new_msg_handle begun queued
      waiting begin_send make_queue
  handled room =
      ap (λ x. (take_one 0 (MsgHandler.step (goes_on c) (go_on x begun))).events) begun_makes
      ∙ (ap (λ x. (take_one 0 (go_on x queued)).events) queued_sends
          ∙ ap (λ m. (take_one 0 m).events) (sent_waiting room))

-- An open connection, whose writer waits.
record IsWaiting (k : Connection.Connection) : Type 0 where
  going : k.panicked ≡ false
  unclosed : k.is_closed ≡ false
  writing : k.writing ≡ true
  none_offered : k.offered ≡ none

-- The state after a message was offered and written.
wrote : Str → Connection.Connection → Connection.Connection
wrote p k = record k { offered = none; written = k.written ++ p ∷ [] }

sends-wrote :
    (p : Str) (k : Connection.Connection)
    → IsWaiting k
    → Connection.step (Connection.writes true) (Connection.step (Connection.sends p) k) ≡ wrote p k
unfolding wrote Connection.step Connection.act Connection.send_msg Connection.write
sends-wrote p k w = rw w.going (rw w.none_offered (rw w.unclosed (rw w.writing refl)))

written_all :
    (ps : List Str) (k : Connection.Connection)
    → IsWaiting k
    → (Connection.run (writes_of ps) k).written ≡ k.written ++ ps
unfolding Connection.run writes_of wrote
written_all [] k w = sym (append-nil k.written)
written_all (p ∷ ps) k w =
    ap (λ x. (Connection.run (writes_of ps) x).written) (sends-wrote p k w)
    ∙ (written_all ps (wrote p k) (record {
      going = w.going;
      unclosed = w.unclosed;
      writing = w.writing;
      none_offered = refl;
    })
        ∙ append_assoc k.written (p ∷ []) ps)

-- The reader reads a message, and then the messages that the routers send are written.
read-written :
    (msg : Message) (c : ℕ) (ps : List Str)
    → (Connection.run (Connection.reads msg ∷ writes_of ps) (new_connection c)).written ≡ ps
unfolding Connection.run Connection.step Connection.act new_connection
read-written msg c ps =
    written_all ps (Connection.step (Connection.reads msg) (new_connection c))
      (record { going = refl; unclosed = refl; writing = refl; none_offered = refl })

routed :
    (r : Request) (mh : MsgHandle) (router : ℕ)
    → lookup r.msg.id mh.apis ≡ some router
    → do_msg_handle r mh
      ≡ MsgHandler.pre_handle router r
        ∷ MsgHandler.handle router r
        ∷ MsgHandler.post_handle router r
        ∷ []
unfolding do_msg_handle
routed r mh router has = rw (has, do_msg_handle) refl

sent_by-routed :
    (replies : ℕ → Message → Option (ℕ × Str)) (r : Request) (router rid : ℕ) (answer : Str)
    → replies router r.msg ≡ some (rid, answer)
    → sent_by replies (
        MsgHandler.pre_handle router r
        ∷ MsgHandler.handle router r
        ∷ MsgHandler.post_handle router r
        ∷ [])
      ≡ pack (new_msg_package rid answer) ∷ []
unfolding sent_by
sent_by-routed replies r router rid answer gives = rw (gives, sent_by) refl

-- Where a message comes whole, however the reads cut it, has a router, and the router has an answer,
-- the server writes the packing of that answer and nothing else, and the client that reads bytes
-- which begin with it gets the answer back. The ids and the size limit are uint32, both contents
-- are within the limit, the pool has workers and their channels have room.
pub exchange_answers :
    (replies : ℕ → Message → Option (ℕ × Str)) (apis : Dict ℕ ℕ)
    (max_size size max_task_len c id router rid : ℕ) (content answer rest rest' : Str)
    (conn back : List Str)
    → id < 2 ^ 32
    → rid < 2 ^ 32
    → max_size < 2 ^ 32
    → length content ≤ max_size
    → length answer ≤ max_size
    → 0 < size
    → 0 < max_task_len
    → lookup id apis ≡ some router
    → replies router (new_msg_package id content) ≡ some (rid, answer)
    → concat conn ≡ pack (new_msg_package id content) ++ rest
    → concat back ≡ pack (new_msg_package rid answer) ++ rest'
    → exchange replies max_size c (fresh size max_task_len apis) conn
        ≡ some (pack (new_msg_package rid answer) ∷ [])
      × (unpack max_size back).0 ≡ ok (new_msg_package rid answer)
unfolding exchange new_msg_handle new_msg_package
exchange_answers replies apis max_size size max_task_len c id router rid content answer rest rest'
      conn back hi hr hm hc ha workers room has gives sent got =
    let msg = new_msg_package id content in
    let r : Request = record { conn_id = c; msg = msg } in
    let events =
      handled size max_task_len c apis msg room
      ∙ routed r (fresh size max_task_len apis) router has in
    let answered = ap (sent_by replies) events ∙ sent_by-routed replies r router rid answer gives in
    (
      rw (unpack-pack max_size id content rest conn hi hm hc sent, exchange)
          (ap some (read-written msg c _ ∙ answered)),
      unpack-pack max_size rid answer rest' back hr hm ha got,
    )
