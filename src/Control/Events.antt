-- ===== src/Control/Events.antt =====
-- pc-service/src/wol_unlock/control/server.py: the events that wait for a connection's client.
use pc_helper_ios.Prelude.{
  ℕ, zero, suc, ◌-◌, ◌≤◌, ◌≡◌, refl, sym, ap, ◌∙◌, inl, inr, true, false, List, [], ◌∷◌, ◌++◌, map,
  arith, ltb, if◌then◌else◌, Bool-cases, length, take, length-append,
}
use pc_helper_ios.Pairing.Manager.{Event}

abbrev pub queue_size : ℕ
queue_size = 64

-- `put_nowait`, with QueueFull passed over
unfoldable pub push : List Event → Event → List Event
push q e = if ltb (length q) queue_size then q ++ e ∷ [] else q

-- the events that come while the client does not read
unfoldable pub push_all : List Event → List Event → List Event
unfolding push
push_all q [] = q
push_all q (e ∷ es) = push_all (push q e) es

-- `_on_pairing_event`: each connection has its queue
unfoldable pub on_pairing_event : Event → List (List Event) → List (List Event)
unfolding push
on_pairing_event e queues = map (λ q. push q e) queues

append_assoc : (q : List Event) (e : Event) (es : List Event) → (q ++ e ∷ []) ++ es ≡ q ++ e ∷ es
append_assoc [] e es = refl
append_assoc (x ∷ q) e es = ap (λ r. x ∷ r) (append_assoc q e es)

append_nil : (q : List Event) → q ++ [] ≡ q
append_nil [] = refl
append_nil (x ∷ q) = ap (λ r. x ∷ r) (append_nil q)

take_nil : (n : ℕ) → take n (let es : List Event = [] in es) ≡ []
take_nil zero = refl
take_nil (suc n) = refl

push_room : (q : List Event) (e : Event) → ltb (length q) queue_size ≡ true → push q e ≡ q ++ e ∷ []
unfolding push
push_room q e room = rw room refl

push_full : (q : List Event) (e : Event) → ltb (length q) queue_size ≡ false → push q e ≡ q
unfolding push
push_full q e full = rw full refl

-- The queue of a client that does not read holds what it held, and then the first events that come
-- until it has 64; the others are dropped, if it had no more than 64.
pub push_all-take :
    (q es : List Event)
    → length q ≤ queue_size
    → push_all q es ≡ q ++ take (queue_size - length q) es
unfolding push_all
push_all-take q [] h = sym (ap (λ r. q ++ r) (take_nil (queue_size - length q)) ∙ append_nil q)
push_all-take q (e ∷ es) h = elim (Bool-cases (ltb (length q) queue_size)) [
  | inl room ↦
      let one_more : queue_size - length q ≡ suc (63 - length q) = ground arith in
      let longer : length (q ++ e ∷ []) ≡ suc (length q) =
        ground (arith, length-append q (e ∷ [])) in
      let left : queue_size - length (q ++ e ∷ []) ≡ 63 - length q = omega (arith, longer) in
      let within : length (q ++ e ∷ []) ≤ queue_size = ground (arith, longer) in
      let ih = push_all-take (q ++ e ∷ []) es within in
      ap (λ r. push_all r es) (push_room q e room)
      ∙ ih
      ∙ ap (λ n. (q ++ e ∷ []) ++ take n es) left
      ∙ append_assoc q e (take (63 - length q) es)
      ∙ sym (ap (λ n. q ++ take n (e ∷ es)) one_more)
  | inr full ↦
      let none_left : queue_size - length q ≡ 0 = ground arith in
      ap (λ r. push_all r es) (push_full q e full)
      ∙ push_all-take q es h
      ∙ ap (λ n. q ++ take n es) none_left
      ∙ sym (ap (λ n. q ++ take n (e ∷ es)) none_left)
]
