-- ===== src/Zinx/MsgHandler/Bounds.antt =====
-- How much the pool holds.
use distributed_study.Common.{
  ℕ, ◌≤◌, ◌<◌, ◌≡◌, refl, lookup, lookup-insert, some, List, [], ◌∷◌, nat_key, ltb, length,
  length-append, arith, Option-cases, Bool-cases, inl, inr,
}
use distributed_study.Zinx.MsgHandler.{
  Request, Sender, idle, makes, sends, MsgHandle, new_msg_handle, worker_id, begin_send, make_queue,
  end_send, take_one, Action, calls, goes_on, works, go_on, step, run,
}

record IsBounded (size room : ℕ) (mh : MsgHandle) : Type 0 where
  size_same : mh.worker_pool_size ≡ size
  room_same : mh.max_task_len ≡ room
  slots : (w q : ℕ) → lookup w mh.task_queue ≡ some q → w < size
  lengths : (q : ℕ) → length (mh.channels q) ≤ room

go_on-IsBounded :
    (size room : ℕ) (s : Sender) (mh : MsgHandle)
    → 0 < size
    → IsBounded size room mh
    → IsBounded size room (go_on s mh)
unfolding go_on make_queue end_send
go_on-IsBounded size room idle mh pos v = v
go_on-IsBounded size room (makes req) mh pos v = record {
  size_same = v.size_same;
  room_same = v.room_same;
  slots = λ w q e. ground (
    arith,
    v.slots w q,
    lookup-insert (worker_id req.conn_id mh) w mh.next_channel mh.task_queue,
    v.size_same,
  );
  lengths = v.lengths;
}
go_on-IsBounded size room (sends req) mh pos v =
    elim (Option-cases (lookup (worker_id req.conn_id mh) mh.task_queue)) [
      | inl absent ↦ rw (absent, end_send) v
      | inr (q, there) ↦ elim (Bool-cases (ltb (length (mh.channels q)) mh.max_task_len)) [
        | inr full ↦ rw (there, full, end_send) v
        | inl has_room ↦
            rw (there, has_room, end_send)
              (record {
                size_same = v.size_same;
                room_same = v.room_same;
                slots = v.slots;
                lengths = λ p.
                    ground
                      (arith, v.lengths p, v.room_same, length-append (mh.channels q) (req ∷ []));
              })
      ]
    ]

take_one-IsBounded :
    (size room : ℕ) (q : ℕ) (mh : MsgHandle)
    → IsBounded size room mh
    → IsBounded size room (take_one q mh)
unfolding take_one
take_one-IsBounded size room q mh v = go (mh.channels q) refl
  where
    go : (l : List Request) → mh.channels q ≡ l → IsBounded size room (take_one q mh)
    go [] e = rw (e, take_one) v
    go (req ∷ rest) e =
        rw (e, take_one)
          (record {
            size_same = v.size_same;
            room_same = v.room_same;
            slots = v.slots;
            lengths = λ p. ground (arith, v.lengths p, v.lengths q);
          })

step-IsBounded :
    (size room : ℕ) (a : Action) (mh : MsgHandle)
    → 0 < size
    → IsBounded size room mh
    → IsBounded size room (step a mh)
unfolding step begin_send
step-IsBounded size room (calls c msg) mh pos v =
    elim (mh.senders c)
      as (λ s.
        IsBounded size room
          (elim s [ idle ↦ begin_send (record { conn_id = c; msg = msg }) mh | _ ↦ mh ])) [
            | idle ↦ record {
              size_same = v.size_same;
              room_same = v.room_same;
              slots = v.slots;
              lengths = v.lengths;
            }
            | makes req ↦ v
            | sends req ↦ v
          ]
step-IsBounded size room (goes_on c) mh pos v = go_on-IsBounded size room (mh.senders c) mh pos v
step-IsBounded size room (works q) mh pos v = take_one-IsBounded size room q mh v

run-IsBounded :
    (size room : ℕ) (actions : List Action) (mh : MsgHandle)
    → 0 < size
    → IsBounded size room mh
    → IsBounded size room (run actions mh)
unfolding run
run-IsBounded size room [] mh pos v = v
run-IsBounded size room (a ∷ rest) mh pos v =
    run-IsBounded size room rest (step a mh) pos (step-IsBounded size room a mh pos v)

new-IsBounded : (size room : ℕ) → IsBounded size room (new_msg_handle size room)
unfolding new_msg_handle lookup
new-IsBounded size room = record {
  size_same = refl;
  room_same = refl;
  slots = λ w q e. ground arith;
  lengths = λ q. omega arith;
}

-- With at least one worker, whatever the readers and the workers do, every slot that is used is
-- one of the pool's, and no channel holds more requests than it has room for.
pub run_bounds :
    (size room : ℕ) (actions : List Action)
    → 0 < size
    → let mh = run actions (new_msg_handle size room) in
      ((w q : ℕ) → lookup w mh.task_queue ≡ some q → w < size)
      × ((q : ℕ) → length (mh.channels q) ≤ room)
run_bounds size room actions pos =
    let v : IsBounded size room (run actions (new_msg_handle size room)) =
      run-IsBounded size room actions (new_msg_handle size room) pos (new-IsBounded size room) in
    (v.slots, v.lengths)
