-- ===== src/Zinx/MsgHandler/Ordered.antt =====
-- The order of a connection's requests, which each part of a step keeps.
use distributed_study.Common.{
  ℕ, ◌%◌, ◌≤◌, ◌<◌, ◌≡◌, ◌⊎◌, refl, lookup, lookup-insert, Option, none, some, List, [], ◌∷◌, ◌++◌,
  Bool, true, false, ◌==◌, nat_key, ltb, length, if◌then◌else◌, arith, Option-cases, inl, inr,
}
use mathlib.Core.List.{append-nil, append_assoc}
use distributed_study.Zinx.MsgHandler.{
  Request, Sender, idle, makes, sends, MsgHandle, worker_id, begin_send, make_queue, end_send,
  take_one, Action, calls, goes_on, works, step,
}

-- The requests of a connection among those of a list.
abbrev pub of : ℕ → List Request → List Request
of c [] = []
of c (r ∷ l) = if r.conn_id == c then r ∷ of c l else of c l

abbrev pub in_hand : Sender → List Request
in_hand idle = []
in_hand (makes req) = req ∷ []
in_hand (sends req) = req ∷ []

abbrev pub request_of : Sender → Option Request
request_of idle = none
request_of (makes req) = some req
request_of (sends req) = some req

-- What stands in the channel of a slot.
abbrev pub in_slot : Option ℕ → (ℕ → List Request) → List Request
in_slot none channels = []
in_slot (some q) channels = channels q

of-append : (c : ℕ) (l m : List Request) → of c (l ++ m) ≡ of c l ++ of c m
of-append c [] m = refl
of-append c (r ∷ l) m = ground (arith, of-append c l m)

-- The action makes a channel for a slot that another reader has filled since the slot was tested.
unfoldable pub refills : Sender → MsgHandle → Bool
refills (makes req) mh = elim (lookup (worker_id req.conn_id mh) mh.task_queue) [
  | none ↦ false
  | some q ↦ true
]
refills idle mh = false
refills (sends req) mh = false

unfoldable pub is_race : Action → MsgHandle → Bool
is_race (goes_on c) mh = refills (mh.senders c) mh
is_race (calls c msg) mh = false
is_race (works q) mh = false

unfoldable pub has_race : List Action → MsgHandle → Bool
has_race [] mh = false
has_race (a ∷ rest) mh = if is_race a mh then true else has_race rest (step a mh)

pub race_free_parts : (a b : Bool) → (if a then true else b) ≡ false → (a ≡ false) × (b ≡ false)
race_free_parts true b e = ground arith
race_free_parts false b e = (refl, e)

pub record IsOrdered (size : ℕ) (mh : MsgHandle) : Type 0 where
  pub size_same : mh.worker_pool_size ≡ size
  pub owned : (c : ℕ) (r : Request) → request_of (mh.senders c) ≡ some r → r.conn_id ≡ c
  pub below : (w q : ℕ) → lookup w mh.task_queue ≡ some q → q < mh.next_channel
  pub unused : (q : ℕ) → mh.next_channel ≤ q → mh.channels q ≡ []
  pub elsewhere :
      (c q : ℕ) → (lookup (c % size) mh.task_queue ≡ some q) ⊎ (of c (mh.channels q) ≡ [])
  pub in_order :
      (c : ℕ)
      → (of c mh.taken ++ of c (in_slot (lookup (c % size) mh.task_queue) mh.channels))
          ++ in_hand (mh.senders c)
        ≡ of c mh.called

module _ (size : ℕ) (mh : MsgHandle) (v : IsOrdered size mh) where
  -- The requests of a connection that were taken or stand in its channel.
  abbrev passed : ℕ → List Request
  passed c = of c mh.taken ++ of c (in_slot (lookup (c % size) mh.task_queue) mh.channels)

  pub begin_send-IsOrdered :
      (req : Request) → mh.senders req.conn_id ≡ idle → IsOrdered size (begin_send req mh)
  unfolding begin_send
  begin_send-IsOrdered req at = record {
    size_same = v.size_same;
    owned = λ c r e. ground (arith, v.owned c r);
    below = v.below;
    unused = v.unused;
    elsewhere = v.elsewhere;
    in_order = λ c. ground (
      arith,
      v.in_order c,
      of-append c mh.called (req ∷ []),
      append-nil (passed c),
      append-nil (of c mh.called),
    );
  }

  pub make_queue-IsOrdered :
      (req : Request)
      → mh.senders req.conn_id ≡ makes req
      → lookup (worker_id req.conn_id mh) mh.task_queue ≡ none
      → IsOrdered size (make_queue req mh)
  unfolding make_queue
  make_queue-IsOrdered req at absent = record {
    size_same = v.size_same;
    owned = λ c r e. ground (arith, v.owned c r);
    below = λ w q e. ground (
      arith,
      v.below w q,
      lookup-insert (worker_id req.conn_id mh) w mh.next_channel mh.task_queue,
    );
    unused = λ q h. ground (arith, v.unused q);
    elsewhere = λ c q. ground (
      arith,
      v.elsewhere c q,
      v.size_same,
      v.unused q,
      lookup-insert (worker_id req.conn_id mh) (c % size) mh.next_channel mh.task_queue,
    );
    in_order = λ c. ground (
      arith,
      v.in_order c,
      v.size_same,
      v.unused mh.next_channel,
      lookup-insert (worker_id req.conn_id mh) (c % size) mh.next_channel mh.task_queue,
    );
  }

  pub end_send-IsOrdered :
      (req : Request) (q : ℕ)
      → mh.senders req.conn_id ≡ sends req
      → lookup (worker_id req.conn_id mh) mh.task_queue ≡ some q
      → ltb (length (mh.channels q)) mh.max_task_len ≡ true
      → IsOrdered size (end_send req mh)
  unfolding end_send
  end_send-IsOrdered req q at there has_room =
      rw (there, has_room, end_send)
        (record {
          size_same = v.size_same;
          owned = λ c r e. ground (arith, v.owned c r);
          below = v.below;
          unused = λ p h. ground (arith, v.unused p, v.below (worker_id req.conn_id mh) q);
          elsewhere = λ c p. ground (
            arith,
            v.elsewhere c p,
            v.size_same,
            of-append c (mh.channels q) (req ∷ []),
            append-nil (of c (mh.channels q)),
          );
          in_order = λ c.
              let both = of-append c (mh.channels q) (req ∷ []) in
              let shift = append_assoc (of c mh.taken) (of c (mh.channels q)) (req ∷ []) in
              elim (Option-cases (lookup (c % size) mh.task_queue)) [
                | inl none_there ↦ ground (arith, v.in_order c, v.size_same)
                | inr (p, e) ↦ ground (
                  arith,
                  v.in_order c,
                  v.size_same,
                  append-nil (of c (mh.channels q)),
                  append-nil (of c mh.taken ++ of c (mh.channels q ++ req ∷ [])),
                )
              ];
        })

  pub take_one-IsOrdered :
      (q : ℕ) (req : Request) (rest : List Request)
      → mh.channels q ≡ req ∷ rest
      → IsOrdered size (take_one q mh)
  unfolding take_one
  take_one-IsOrdered q req rest e =
      rw (e, take_one)
        (record {
          size_same = v.size_same;
          owned = v.owned;
          below = v.below;
          unused = λ p h. ground (arith, v.unused p);
          elsewhere = λ c p. ground (arith, v.elsewhere c p, v.elsewhere c q);
          in_order = λ c.
              let both = of-append c mh.taken (req ∷ []) in
              let shift = append_assoc (of c mh.taken) (req ∷ []) (of c rest) in
              elim (Option-cases (lookup (c % size) mh.task_queue)) [
                | inl none_there ↦
                    ground (arith, v.in_order c, v.elsewhere c q, append-nil (of c mh.taken))
                | inr (p, there) ↦
                    ground (arith, v.in_order c, v.elsewhere c q, append-nil (of c mh.taken))
              ];
        })
