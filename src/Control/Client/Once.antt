-- ===== src/Control/Client/Once.antt =====
-- A call of the client ends once.
use pc_helper_ios.Prelude.{
  ℕ, suc, ◌+◌, ◌≤◌, ◌<◌, ◌≡◌, refl, inl, inr, true, Option, none, some, List, [], ◌∷◌, ◌++◌, map,
  arith, ◌==◌, if◌then◌else◌, Bool-cases, is_some, any, Text, codes,
}
use pc_helper_ios.Errors.{Result, ok, err}
use pc_helper_ios.Value.{
  pos, negsuc, Value, integer, object, array, string, boolean, other, null, Fields, get,
}
use pc_helper_ios.Control.Serve.{decode}
use pc_helper_ios.Control.Client.{
  Client, Reply, connection_lost, message, fresh, send, without_id, is_pending, settle, settle_by,
  deliver, receive, lose, time_out, Op, do_send, do_lose, do_receive, do_time_out, step, steps,
}

-- how often `n` stands in a list
unfoldable pub count : ℕ → List ℕ → ℕ
count n [] = 0
count n (m ∷ ms) = let rest = count n ms in if m == n then suc rest else rest

abbrev pub numbers : List (ℕ × Reply) → List ℕ
numbers = map (λ (p : ℕ × Reply). p.0)

-- how many outcomes the call with the id `n` has
abbrev pub outcomes : ℕ → Client → ℕ
outcomes n c = count n (numbers c.settled)

abbrev total : ℕ → Client → ℕ
total n c = count n c.pending + outcomes n c

-- an id waits or has ended, at most once, and none is above the last that was drawn
abbrev IsOnce : Client → Type 0
IsOnce c = (n : ℕ) → (total n c ≤ 1) × (c.next_id < n → total n c ≡ 0)

pub count-keep :
    (n m : ℕ) (ns : List ℕ) → count m (without_id n ns) ≡ (if m == n then 0 else count m ns)
unfolding count
count-keep n m [] = ground arith
count-keep n m (k ∷ ns) = ground (arith, count-keep n m ns)

pub count-any : (n : ℕ) (ns : List ℕ) → any (λ m. m == n) ns ≡ true → 1 ≤ count n ns
unfolding count
count-any n [] h = cc
count-any n (m ∷ ns) h = ground (arith, count-any n ns)

pub count-lost :
    (m : ℕ) (ns : List ℕ) (rs : List (ℕ × Reply))
    → count m (numbers (map (λ n. (n, connection_lost)) ns ++ rs))
      ≡ count m ns + count m (numbers rs)
unfolding count
count-lost m [] rs = omega arith
count-lost m (n ∷ ns) rs = ground (arith, count-lost m ns rs)

send-IsOnce : (c : Client) → IsOnce c → IsOnce (send c).1
unfolding send count
send-IsOnce c h n = ground (arith, h n)

time_out-IsOnce : (m : ℕ) (c : Client) → IsOnce c → IsOnce (time_out m c)
unfolding time_out
time_out-IsOnce m c h n = ground (arith, h n, count-keep m n c.pending)

lose-IsOnce : (c : Client) → IsOnce c → IsOnce (lose c)
unfolding lose count
lose-IsOnce c h n = ground (arith, h n, count-lost n c.pending c.settled)

settle-IsOnce : (m : ℕ) (r : Reply) (c : Client) → IsOnce c → IsOnce (settle m r c)
unfolding count
settle-IsOnce m r c h n = elim (Bool-cases (is_pending m c)) [
  | inl waits ↦
      rw waits (ground (arith, h n, h m, count-keep m n c.pending, count-any m c.pending waits))
  | inr unknown ↦ rw unknown (h n)
]

settle_by-IsOnce :
    (v : Option Value) (fs : Fields) (c : Client) → IsOnce c → IsOnce (settle_by v fs c)
settle_by-IsOnce none fs c h = h
settle_by-IsOnce (some (integer (pos n))) fs c h = settle-IsOnce n (message fs) c h
settle_by-IsOnce (some (integer (negsuc n))) fs c h = h
settle_by-IsOnce (some (object gs)) fs c h = h
settle_by-IsOnce (some (array vs)) fs c h = h
settle_by-IsOnce (some (string s)) fs c h = h
settle_by-IsOnce (some (boolean b)) fs c h = h
settle_by-IsOnce (some (other b)) fs c h = h
settle_by-IsOnce (some null) fs c h = h

deliver-IsOnce : (r : Result Fields) (c : Client) → IsOnce c → IsOnce (deliver r c)
deliver-IsOnce (err x) c h = h
deliver-IsOnce (ok fs) c h = elim (Bool-cases (is_some (get (codes "event") fs))) [
  | inl event ↦ rw event h
  | inr reply ↦ rw reply (settle_by-IsOnce (get (codes "id") fs) fs c h)
]

module _ (loads : Text → Result Value) where
  step-IsOnce : (o : Op) (c : Client) → IsOnce c → IsOnce (step loads o c)
  unfolding step receive
  step-IsOnce do_send c h = send-IsOnce c h
  step-IsOnce do_lose c h = lose-IsOnce c h
  step-IsOnce (do_receive s) c h = deliver-IsOnce (decode loads s) c h
  step-IsOnce (do_time_out n) c h = time_out-IsOnce n c h

  steps-IsOnce : (ops : List Op) (c : Client) → IsOnce c → IsOnce (steps loads ops c)
  unfolding steps
  steps-IsOnce [] c h = h
  steps-IsOnce (o ∷ ops) c h = steps-IsOnce ops (step loads o c) (step-IsOnce o c h)

  fresh-IsOnce : IsOnce fresh
  unfolding count
  fresh-IsOnce n = (omega arith, λ h. refl)

  -- Whatever calls, lines, timeouts and losses come in whatever order, no call of a new client gets
  -- two outcomes, and a call that has one waits no more.
  pub one_outcome :
      (ops : List Op) (n : ℕ)
      → outcomes n (steps loads ops fresh) + count n (steps loads ops fresh).pending ≤ 1
  one_outcome ops n = let once = steps-IsOnce ops fresh fresh-IsOnce n in omega (arith, once.0)
