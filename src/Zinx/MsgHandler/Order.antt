-- ===== src/Zinx/MsgHandler/Order.antt =====
-- The requests of a connection are taken in the order in which they were sent.
use distributed_study.Common.{
  ℕ, ◌%◌, ◌≡◌, ◌∙◌, refl, ap, lookup, List, [], ◌∷◌, ◌++◌, false, nat_key, ltb, length, arith,
  Option-cases, Bool-cases, inl, inr,
}
use distributed_study.Zinx.MsgHandler.{
  Request, Sender, idle, makes, sends, MsgHandle, new_msg_handle, worker_id, end_send, take_one,
  Action, calls, goes_on, works, go_on, step, run,
}
use distributed_study.Zinx.MsgHandler.Ordered.{
  of, in_hand, request_of, in_slot, refills, is_race, has_race, race_free_parts, IsOrdered,
  begin_send-IsOrdered, make_queue-IsOrdered, end_send-IsOrdered, take_one-IsOrdered,
}

go_on-IsOrdered :
    (size c : ℕ) (mh : MsgHandle)
    → IsOrdered size mh
    → refills (mh.senders c) mh ≡ false
    → IsOrdered size (go_on (mh.senders c) mh)
unfolding go_on refills end_send
go_on-IsOrdered size c mh v calm = go (mh.senders c) refl
  where
    sent : (req : Request) → mh.senders req.conn_id ≡ sends req → IsOrdered size (end_send req mh)
    sent req at = elim (Option-cases (lookup (worker_id req.conn_id mh) mh.task_queue)) [
      | inl absent ↦ rw (absent, end_send) v
      | inr (q, there) ↦ elim (Bool-cases (ltb (length (mh.channels q)) mh.max_task_len)) [
        | inl has_room ↦ end_send-IsOrdered size mh v req q at there has_room
        | inr full ↦ rw (there, full, end_send) v
      ]
    ]

    go : (s : Sender) → mh.senders c ≡ s → IsOrdered size (go_on (mh.senders c) mh)
    go idle e = rw (e, go_on) v
    go (makes req) e =
        let mine : req.conn_id ≡ c = v.owned c req (ap request_of e) in
        rw (e, go_on) (make_queue-IsOrdered size mh v req (ap mh.senders mine ∙ e) (ground arith))
    go (sends req) e =
        let mine : req.conn_id ≡ c = v.owned c req (ap request_of e) in
        rw (e, go_on) (sent req (ap mh.senders mine ∙ e))

step-IsOrdered :
    (size : ℕ) (a : Action) (mh : MsgHandle)
    → IsOrdered size mh
    → is_race a mh ≡ false
    → IsOrdered size (step a mh)
unfolding step is_race
step-IsOrdered size (calls c msg) mh v calm = go (mh.senders c) refl
  where
    go : (s : Sender) → mh.senders c ≡ s → IsOrdered size (step (calls c msg) mh)
    go idle e = rw (e, step) (begin_send-IsOrdered size mh v (record { conn_id = c; msg = msg }) e)
    go (makes req) e = rw (e, step) v
    go (sends req) e = rw (e, step) v
step-IsOrdered size (goes_on c) mh v calm = go_on-IsOrdered size c mh v calm
step-IsOrdered size (works q) mh v calm = go (mh.channels q) refl
  where
    go : (l : List Request) → mh.channels q ≡ l → IsOrdered size (take_one q mh)
    go [] e = unfold take_one in rw (e, take_one) v
    go (req ∷ rest) e = take_one-IsOrdered size mh v q req rest e

run-IsOrdered :
    (size : ℕ) (actions : List Action) (mh : MsgHandle)
    → IsOrdered size mh
    → has_race actions mh ≡ false
    → IsOrdered size (run actions mh)
unfolding run has_race
run-IsOrdered size [] mh v calm = v
run-IsOrdered size (a ∷ rest) mh v calm =
    let (now, later) = race_free_parts (is_race a mh) (has_race rest (step a mh)) calm in
    run-IsOrdered size rest (step a mh) (step-IsOrdered size a mh v now) later

new-IsOrdered : (size room : ℕ) → IsOrdered size (new_msg_handle size room)
unfolding new_msg_handle lookup
new-IsOrdered size room = record {
  size_same = refl;
  owned = λ c r e. ground arith;
  below = λ w q e. ground arith;
  unused = λ q h. refl;
  elsewhere = λ c q. inr refl;
  in_order = λ c. refl;
}

-- Where no reader makes a channel for a slot that another has filled since its test, the requests
-- of each connection that were taken by workers, with those in the connection's channel and the
-- one that its reader has in hand, are the requests that the reader was called with, in order.
pub run_in_order :
    (size room c : ℕ) (actions : List Action)
    → has_race actions (new_msg_handle size room) ≡ false
    → let mh = run actions (new_msg_handle size room) in
      (of c mh.taken ++ of c (in_slot (lookup (c % size) mh.task_queue) mh.channels))
        ++ in_hand (mh.senders c)
      ≡ of c mh.called
run_in_order size room c actions calm =
    let v : IsOrdered size (run actions (new_msg_handle size room)) =
      run-IsOrdered size actions (new_msg_handle size room) (new-IsOrdered size room) calm in
    v.in_order c
