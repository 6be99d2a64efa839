-- ===== src/Control/Client/Ended.antt =====
-- Every call of the client ends.
use pc_helper_ios.Prelude.{
  ℕ, ◌+◌, ◌≤◌, ◌<◌, ◌≡◌, ◌≢◌, inl, inr, Bool, ◌&&◌, Option, some, List, [], ◌∷◌, arith, ltb, leb,
  if◌then◌else◌, Bool-cases, is_some, All, Text, codes,
}
use pc_helper_ios.Errors.{Result, ok, err}
use pc_helper_ios.Value.{pos, Value, integer, Fields, get}
use pc_helper_ios.Control.Serve.{decode}
use pc_helper_ios.Control.Client.{
  Client, Reply, message, fresh, send, is_pending, settle, settle_by, deliver, receive, lose,
  time_out, Op, do_send, do_lose, do_receive, do_time_out, step, steps,
}
use pc_helper_ios.Control.Client.Once.{count, count-keep, count-any, count-lost, outcomes}

-- the id of a call that was made
abbrev was_sent : ℕ → Client → Bool
was_sent n c = ltb 0 n && leb n c.next_id

-- a call that was made waits or has ended, once; another has done neither
abbrev IsTracked : ℕ → Client → Type 0
IsTracked n c = count n c.pending + outcomes n c ≡ (if was_sent n c then 1 else 0)

abbrev pub IsOther : ℕ → Op → Type 0
IsOther n (do_time_out m) = m ≢ n
IsOther n _ = Unit

module _ (n : ℕ) where
  send-IsTracked : (c : Client) → IsTracked n c → IsTracked n (send c).1
  unfolding send count
  send-IsTracked c h = ground arith

  time_out-IsTracked : (m : ℕ) (c : Client) → m ≢ n → IsTracked n c → IsTracked n (time_out m c)
  unfolding time_out
  time_out-IsTracked m c ne h = ground (arith, count-keep m n c.pending)

  lose-IsTracked : (c : Client) → IsTracked n c → IsTracked n (lose c)
  unfolding lose count
  lose-IsTracked c h = ground (arith, count-lost n c.pending c.settled)

  lost_once : (c : Client) → IsTracked n (lose c) → 0 < n → n ≤ c.next_id → outcomes n (lose c) ≡ 1
  unfolding lose count
  lost_once c h sent known = ground arith

  settle-IsTracked : (m : ℕ) (r : Reply) (c : Client) → IsTracked n c → IsTracked n (settle m r c)
  unfolding count
  settle-IsTracked m r c h = elim (Bool-cases (is_pending m c)) [
    | inl waits ↦ rw waits (ground (arith, count-keep m n c.pending, count-any m c.pending waits))
    | inr unknown ↦ rw unknown h
  ]

  settle_by-IsTracked :
      (v : Option Value) (fs : Fields) (c : Client) → IsTracked n c → IsTracked n (settle_by v fs c)
  settle_by-IsTracked (some (integer (pos m))) fs c h = settle-IsTracked m (message fs) c h
  settle_by-IsTracked v fs c h = h

  deliver-IsTracked : (r : Result Fields) (c : Client) → IsTracked n c → IsTracked n (deliver r c)
  deliver-IsTracked (err x) c h = h
  deliver-IsTracked (ok fs) c h = elim (Bool-cases (is_some (get (codes "event") fs))) [
    | inl event ↦ rw event h
    | inr reply ↦ rw reply (settle_by-IsTracked (get (codes "id") fs) fs c h)
  ]

  module _ (loads : Text → Result Value) where
    step-IsTracked :
        (o : Op) (c : Client) → IsOther n o → IsTracked n c → IsTracked n (step loads o c)
    unfolding step receive
    step-IsTracked do_send c o h = send-IsTracked c h
    step-IsTracked do_lose c o h = lose-IsTracked c h
    step-IsTracked (do_receive s) c o h = deliver-IsTracked (decode loads s) c h
    step-IsTracked (do_time_out m) c o h = time_out-IsTracked m c o h

    steps-IsTracked :
        (ops : List Op) (c : Client)
        → All (IsOther n) ops
        → IsTracked n c
        → IsTracked n (steps loads ops c)
    unfolding steps
    steps-IsTracked [] c os h = h
    steps-IsTracked (o ∷ ops) c os h =
        steps-IsTracked ops (step loads o c) os.1 (step-IsTracked o c os.0 h)

    fresh-IsTracked : IsTracked n fresh
    unfolding count
    fresh-IsTracked = ground arith

    -- No call hangs: whatever calls, lines, losses and timeouts of other calls come in whatever
    -- order, once the connection is lost a call that was made, and that did not time out itself, has
    -- exactly one outcome.
    pub every_call_ends :
        (ops : List Op)
        → All (IsOther n) ops
        → 0 < n
        → n ≤ (steps loads ops fresh).next_id
        → outcomes n (lose (steps loads ops fresh)) ≡ 1
    unfolding lose
    every_call_ends ops others sent known =
        let c = steps loads ops fresh in
        lost_once c (lose-IsTracked c (steps-IsTracked ops fresh others fresh-IsTracked)) sent known
