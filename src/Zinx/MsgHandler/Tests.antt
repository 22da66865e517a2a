-- ===== src/Zinx/MsgHandler/Tests.antt =====
-- A pool of two workers, and the race for a slot.
use distributed_study.Common.{
  ℕ, ◌≡◌, ◌≤◌, ◌<◌, ◌%◌, refl, bytes, lookup, insert, nat_key, length, none, some, List, [], ◌∷◌,
  ◌++◌, true, arith,
}
use distributed_study.Zinx.Message.{Message}
use distributed_study.Zinx.MsgHandler.{
  Request, pre_handle, handle, post_handle, new_msg_handle, do_msg_handle, add_router,
  start_worker_pool, begin_send, make_queue, end_send, take_one, Action, calls, goes_on, works,
  go_on, step, run,
}
use distributed_study.Zinx.MsgHandler.Bounds.{run_bounds}
use distributed_study.Zinx.MsgHandler.Order.{run_in_order}
use distributed_study.Zinx.MsgHandler.Ordered.{of, in_slot, in_hand, refills, is_race, has_race}

program : Unit {0}
unfolding new_msg_handle do_msg_handle add_router start_worker_pool begin_send make_queue end_send
    take_one go_on step run refills is_race has_race lookup insert
program = tt

abbrev ping : Message
ping = record { id = 1; data_len = 1; content = bytes "p" }

abbrev quit : Message
quit = record { id = 2; data_len = 1; content = bytes "q" }

abbrev from : ℕ → Message → Request
from c msg = record { conn_id = c; msg = msg }

routed :
    (add_router 1 9 (new_msg_handle 2 4)
      ≡ some (record (new_msg_handle 2 4) { apis = (1, 9) ∷ [] }))
    × (add_router 1 8 (record (new_msg_handle 2 4) { apis = (1, 9) ∷ [] }) ≡ none)
    × (do_msg_handle (from 0 ping) (record (new_msg_handle 2 4) { apis = (1, 9) ∷ [] })
        ≡ pre_handle 9 (from 0 ping) ∷ handle 9 (from 0 ping) ∷ post_handle 9 (from 0 ping) ∷ [])
    × ((start_worker_pool (new_msg_handle 2 4)).is_open ≡ true)
unfolding program
routed = (refl, refl, refl, refl)

abbrev orderly : List Action
orderly =
    calls 0 ping
    ∷ goes_on 0
    ∷ goes_on 0
    ∷ calls 1 ping
    ∷ goes_on 1
    ∷ calls 0 quit
    ∷ goes_on 0
    ∷ goes_on 1
    ∷ works 0
    ∷ works 0
    ∷ []

-- Two readers find the one slot nil, and each makes a channel for it.
abbrev raced : List Action
raced =
    calls 0 ping
    ∷ calls 1 ping
    ∷ goes_on 0
    ∷ goes_on 0
    ∷ goes_on 1
    ∷ calls 0 quit
    ∷ goes_on 0
    ∷ works 1
    ∷ works 0
    ∷ []

overtaken :
    ((run raced (new_msg_handle 1 4)).taken ≡ from 0 quit ∷ from 0 ping ∷ [])
    × (has_race raced (new_msg_handle 1 4) ≡ true)
unfolding program
overtaken = (refl, refl)

run_bounds_example :
    let mh = run orderly (new_msg_handle 2 4) in
    ((w q : ℕ) → lookup w mh.task_queue ≡ some q → w < 2) × ((q : ℕ) → length (mh.channels q) ≤ 4)
run_bounds_example = run_bounds 2 4 orderly (omega arith)

run_in_order_example :
    let mh = run orderly (new_msg_handle 2 4) in
    (of 0 mh.taken ++ of 0 (in_slot (lookup (0 % 2) mh.task_queue) mh.channels))
      ++ in_hand (mh.senders 0)
    ≡ of 0 mh.called
unfolding program
run_in_order_example = run_in_order 2 4 0 orderly refl
