-- ===== src/GeeRpc/Link/Answering.antt =====
-- How many requests of a number were taken, answered, and wait for their response.
use distributed_study.Common.{
  ℕ, zero, suc, ◌+◌, ◌-◌, ◌≤◌, ◌≡◌, ap, refl, Str, Option, none, some, List, [], ◌∷◌, ◌++◌, true,
  ◌==◌, nat_key, if◌then◌else◌, arith, All, length, take, map, Bool-cases, inl, inr,
}
use distributed_study.GeeRpc.Codec.{Header}
use distributed_study.GeeRpc.Server.Handling
use distributed_study.GeeRpc.Server.Handling.{handling_step}
use distributed_study.GeeRpc.Server.Handling.Once.{
  IsCounted, handling_step-IsCounted, IsCounted-bound,
}
use distributed_study.GeeRpc.Server.Handling.Effects.{responses_grow}
use distributed_study.GeeRpc.Link.{
  Setting, Job, Response, all_returned, own, response, job_step, job_responses, work,
}
use distributed_study.GeeRpc.Link.Returned.{Counted, is_returned_iff}

-- The requests with the number among those taken, the responses with it, and the requests with it
-- that have no response yet.
abbrev pub taken_of : ℕ → List Header → ℕ
taken_of n [] = 0
taken_of n (h ∷ hs) = (if h.seq == n then 1 else 0) + taken_of n hs

abbrev pub written_of : ℕ → List Response → ℕ
written_of n [] = 0
written_of n (r ∷ rs) = (if r.header.seq == n then 1 else 0) + written_of n rs

abbrev pub waits : ℕ → Job → ℕ
waits n j = if j.header.seq == n then 1 - length j.handling.responses else 0

abbrev pub waiting : ℕ → List Job → ℕ
waiting n [] = 0
waiting n (j ∷ js) = waits n j + waiting n js

pub taken_of-append :
    (n : ℕ) (hs : List Header) (h : Header)
    → taken_of n (hs ++ h ∷ []) ≡ taken_of n hs + (if h.seq == n then 1 else 0)
taken_of-append n [] h = omega arith
taken_of-append n (g ∷ hs) h = omega (arith, taken_of-append n hs h)

pub written_of-append :
    (n : ℕ) (rs ss : List Response) → written_of n (rs ++ ss) ≡ written_of n rs + written_of n ss
written_of-append n [] ss = omega arith
written_of-append n (r ∷ rs) ss = omega (arith, written_of-append n rs ss)

pub waiting-append :
    (n : ℕ) (js : List Job) (j : Job) → waiting n (js ++ j ∷ []) ≡ waiting n js + waits n j
waiting-append n [] j = omega arith
waiting-append n (i ∷ js) j = omega (arith, waiting-append n js j)

length-take_le : {A : Type 0} (n : ℕ) (l : List A) → n ≤ length l → length (take n l) ≡ n
length-take_le zero l h = refl
length-take_le (suc n) [] h = ground arith
length-take_le (suc n) (x ∷ l) h = ap suc (length-take_le n l (omega arith))

module _ (setting : Setting) where
  -- Every response of a request has its number.
  written_of-response :
      (n : ℕ) (j : Job) (a : Handling.Action) (es : List (Option Str))
      → written_of n (map (response setting j a) es) ≡ (if j.header.seq == n then length es else 0)
  written_of-response n j a [] = ground arith
  written_of-response n j a (none ∷ es) = let rest = written_of-response n j a es in ground arith
  written_of-response n j a (some e ∷ es) = let rest = written_of-response n j a es in ground arith

  job_responses-waits :
      (n : ℕ) (a : Handling.Action) (j : Job)
      → Counted setting j
      → written_of n (job_responses setting a j) + waits n (job_step setting a j) ≡ waits n j
  unfolding job_responses job_step IsCounted
  job_responses-waits n a j c =
      let h = j.handling in
      let after = handling_step (own setting j a) h in
      let grows = responses_grow (own setting j a) h in
      let most =
        (IsCounted-bound after.waiter after.worker (length after.responses)
          (handling_step-IsCounted (own setting j a) h c)).0 in
      let new : length (take (length after.responses - length h.responses) after.responses)
          ≡ length after.responses - length h.responses =
        length-take_le (length after.responses - length h.responses) after.responses
          (omega arith) in
      let counts =
        written_of-response n j a
          (take (length after.responses - length h.responses) after.responses) in
      elim (Bool-cases (j.header.seq == n)) [
        | inl own_seq ↦ ground arith
        | inr other ↦ ground arith
      ]

  pub work-waiting :
      (n i : ℕ) (a : Handling.Action) (js : List Job)
      → All (Counted setting) js
      → written_of n (work setting i a js).1 + waiting n (work setting i a js).0 ≡ waiting n js
  unfolding work
  work-waiting n i a [] c = refl
  work-waiting n zero a (j ∷ js) (c, cs) = omega (arith, job_responses-waits n a j c)
  work-waiting n (suc i) a (j ∷ js) (c, cs) = omega (arith, work-waiting n i a js cs)

  pub returned-waiting :
      (n : ℕ) (js : List Job) → All (Counted setting) js → all_returned js ≡ true → waiting n js ≡ 0
  unfolding all_returned IsCounted
  returned-waiting n [] c e = refl
  returned-waiting n (j ∷ js) (c, cs) e =
      let rest = returned-waiting n js cs (ground arith) in
      let one =
        (IsCounted-bound j.handling.waiter j.handling.worker (length j.handling.responses) c).1
          (is_returned_iff j.handling.waiter (ground arith)) in
      ground arith
