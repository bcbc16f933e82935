-- ===== src/Controller/SpscQueue/Fifo.antt =====
-- The ring refines a bounded queue: the values between the two indices, oldest first.
use adaptive_traffic_light.Prelude.{
  ℕ, zero, suc, ◌+◌, ◌-◌, ◌%◌, ◌≤◌, ◌<◌, ◌≡◌, ◌≢◌, refl, sym, ◌∙◌, ap, Bool, true, false,
  if◌then◌else◌, if-elim, ◌==◌, Option, none, some, List, [], ◌∷◌, ◌++◌, length, length-append,
  get_or, set, length-set, get_or-set_self, get_or-set_ne, arith,
}
use adaptive_traffic_light.Controller.SpscQueue.{SpscQueue, capacity, increment, try_push, try_pop}
use adaptive_traffic_light.Controller.SpscQueue.Indices.{
  first_slot, next_slot, distance, distance_next, distance_passed, distance-lt, reached,
  not_reached,
}

module _ {T : Type 0} (d : T) where
  -- The n values from index r on, the newest last.
  abbrev pub between : List T → ℕ → ℕ → List T
  between s r zero = []
  between s r (suc n) = between s r n ++ (get_or s ((r + n) % length s) d ∷ [])

  -- The number of values in the ring.
  abbrev pub size : SpscQueue T → ℕ
  size q = distance (capacity q) q.read_index q.write_index

  abbrev pub contents : SpscQueue T → List T
  contents q = between q.storage q.read_index (size q)

  pub record IsValid (q : SpscQueue T) : Type 0 where
    pub read : q.read_index < capacity q
    pub write : q.write_index < capacity q

  length-between : (s : List T) (r n : ℕ) → length (between s r n) ≡ n
  length-between s r zero = refl
  length-between s r (suc n) = omega (
    arith,
    length-append (between s r n) (get_or s ((r + n) % length s) d ∷ []),
    length-between s r n,
  )

  -- A write behind the values leaves them alone.
  between-set :
      (s : List T) (r n i : ℕ) (v : T)
      → r < length s
      → i < length s
      → ((k : ℕ) → k < n → (r + k) % length s ≢ i)
      → between (set s i v) r n ≡ between s r n
  between-set s r zero i v h l ne = refl
  between-set s r (suc n) i v h l ne =
      rw
        (
          length-set s i v,
          get_or-set_ne s i ((r + n) % length s) v d (λ e. ne n (omega arith) (sym e)),
          between-set s r n i v h l (λ k m. ne k (omega arith)),
        )
        refl

  -- The first of the values, and those behind it.
  between_first :
      (s : List T) (r n : ℕ)
      → r < length s
      → suc n ≤ length s
      → between s r (suc n) ≡ get_or s r d ∷ between s ((r + 1) % length s) n
  between_first s r zero h l = ap (λ k. get_or s k d ∷ []) (first_slot r (length s) h)
  between_first s r (suc n) h l =
      ap (λ t. t ++ (get_or s ((r + suc n) % length s) d ∷ []))
        (between_first s r n h (omega arith))
      ∙ ap (λ k. get_or s r d ∷ (between s ((r + 1) % length s) n ++ (get_or s k d ∷ [])))
          (next_slot r n (length s))

  -- The bounded queue.
  abbrev pub push : ℕ → T → List T → Bool × List T
  push limit v vs = if length vs == limit then (false, vs) else (true, vs ++ (v ∷ []))

  abbrev pub pop : List T → Option T × List T
  pop [] = (none, [])
  pop (v ∷ vs) = (some v, vs)

  push_full : (limit : ℕ) (x : T) (vs : List T) → length vs ≡ limit → (false, vs) ≡ push limit x vs
  push_full limit x vs h = ground arith

  push_room :
      (limit : ℕ) (x : T) (vs : List T)
      → length vs ≢ limit
      → (true, vs ++ (x ∷ [])) ≡ push limit x vs
  push_room limit x vs h = ground arith

  -- What a write at the place behind the values adds.
  written :
      (s : List T) (r w : ℕ) (x : T)
      → r < length s
      → w < length s
      → between (set s w x) r (suc (distance (length s) r w))
        ≡ between s r (distance (length s) r w) ++ (x ∷ [])
  written s r w x h l =
      rw
        (
          length-set s w x,
          reached (length s) r w h l,
          get_or-set_self s w x d l,
          between-set s r (distance (length s) r w) w x h l
              (λ k m. not_reached (length s) r w k h l m),
        )
        refl

  -- TryPush() of a ring whose indices are in range does what the queue of one place less than the
  -- storage does: it refuses at that length and else appends, and the indices stay in range.
  pub try_push-push :
      (q : SpscQueue T) (x : T)
      → IsValid q
      → let (ok, r) = try_push x q in
        (IsValid r) × ((ok, contents r) ≡ push (capacity q - 1) x (contents q))
  unfolding try_push
  try_push-push q x v =
      if-elim P (increment q q.write_index == q.read_index)
        (λ t. (
          v,
          push_full (cap - 1) x (contents q)
              (omega (arith, length-between q.storage r (size q), next.1 (ground arith))),
        ))
        (λ t.
          let n : (w + 1) % cap ≢ r = ground arith in
          (
            record { read = omega (arith, v.read, grown); write = omega (arith, next.2, grown) },
            ap (λ vs. (true, vs)) (appended n) ∙ push_room (cap - 1) x (contents q) (λ e. room n e),
          ))
    where
      P : Bool × SpscQueue T → Type 0
      P (ok, r) = (IsValid r) × ((ok, contents r) ≡ push (capacity q - 1) x (contents q))

      cap : ℕ
      cap = capacity q

      r : ℕ
      r = q.read_index

      w : ℕ
      w = q.write_index

      grown : length (set q.storage w x) ≡ cap
      grown = length-set q.storage w x

      next :
          ((w + 1) % cap ≢ r → distance cap r ((w + 1) % cap) ≡ suc (distance cap r w))
          × ((w + 1) % cap ≡ r → suc (distance cap r w) ≡ cap)
          × ((w + 1) % cap < cap)
      next = distance_next cap r w v.read v.write

      appended :
          (w + 1) % cap ≢ r
          → between (set q.storage w x) r (distance (length (set q.storage w x)) r ((w + 1) % cap))
            ≡ contents q ++ (x ∷ [])
      appended n =
          ap (λ k. between (set q.storage w x) r (distance k r ((w + 1) % cap))) grown
          ∙ ap (between (set q.storage w x) r) (next.0 n)
          ∙ written q.storage r w x v.read v.write

      room : (w + 1) % cap ≢ r → length (contents q) ≡ cap - 1 → ⊥
      room n e = omega (
        arith,
        next.0 n,
        distance-lt cap r ((w + 1) % cap) v.read next.2,
        length-between q.storage r (size q),
      )

  -- TryPop() of a ring whose indices are in range does what the queue does: it takes the oldest value
  -- out, or says that there is none, and the indices stay in range.
  pub try_pop-pop :
      (q : SpscQueue T)
      → IsValid q
      → let (o, r) = try_pop d q in (IsValid r) × ((o, contents r) ≡ pop (contents q))
  unfolding try_pop
  try_pop-pop q v =
      if-elim P (q.read_index == q.write_index)
        (λ t. (
          v,
          (let z : size q ≡ 0 = ground arith in
              ap (λ n. (none, between q.storage q.read_index n)) z
              ∙ ap pop (sym (ap (between q.storage q.read_index) z))),
        ))
        (λ t.
          let n : q.read_index ≢ q.write_index = ground arith in
          let passed = distance_passed (capacity q) q.read_index q.write_index v.read v.write n in
          (
            record { read = passed.1; write = v.write },
            ap pop (
                sym (
                  between_first q.storage q.read_index
                    (distance (capacity q) ((q.read_index + 1) % capacity q) q.write_index) v.read
                    (omega (
                      arith,
                      passed.0,
                      distance-lt (capacity q) q.read_index q.write_index v.read v.write,
                    )))
                ∙ ap (between q.storage q.read_index) passed.0),
          ))
    where
      P : Option T × SpscQueue T → Type 0
      P (o, r) = (IsValid r) × ((o, contents r) ≡ pop (contents q))

  capacity-try_push : (x : T) (q : SpscQueue T) → capacity (try_push x q).1 ≡ capacity q
  unfolding try_push
  capacity-try_push x q = ground (arith, length-set q.storage q.write_index x)

  capacity-try_pop : (q : SpscQueue T) → capacity (try_pop d q).1 ≡ capacity q
  unfolding try_pop
  capacity-try_pop q = ground arith

  -- The two threads' calls in some order, and what each returns.
  pub data Call : Type 0 where
    pushes : T → Call
    pops : Call

  pub data Reply : Type 0 where
    pushed : Bool → Reply
    popped : Option T → Reply

  abbrev pub on_ring : List Call → SpscQueue T → List Reply
  on_ring [] q = []
  on_ring (pushes x ∷ cs) q = let (ok, r) = try_push x q in pushed ok ∷ on_ring cs r
  on_ring (pops ∷ cs) q = let (o, r) = try_pop d q in popped o ∷ on_ring cs r

  abbrev pub on_list : ℕ → List Call → List T → List Reply
  on_list limit [] vs = []
  on_list limit (pushes x ∷ cs) vs =
      let (ok, ws) = push limit x vs in pushed ok ∷ on_list limit cs ws
  on_list limit (pops ∷ cs) vs = let (o, ws) = pop vs in popped o ∷ on_list limit cs ws

  -- Any calls of TryPush() and TryPop() on a ring whose indices are in range return what they would
  -- return on a plain first-in-first-out queue of the values in the ring, with room for one value
  -- less than the capacity: nothing is lost, duplicated or reordered, and a push is refused only when
  -- that many values are in the ring.
  pub on_ring-on_list :
      (cs : List Call) (q : SpscQueue T)
      → IsValid q
      → on_ring cs q ≡ on_list (capacity q - 1) cs (contents q)
  on_ring-on_list [] q v = refl
  on_ring-on_list (pushes x ∷ cs) q v =
      let (w, e) = try_push-push q x v in
      rw (on_ring-on_list cs (try_push x q).1 w, ← e, capacity-try_push x q) refl
  on_ring-on_list (pops ∷ cs) q v =
      let (w, e) = try_pop-pop q v in
      rw (on_ring-on_list cs (try_pop d q).1 w, ← e, capacity-try_pop q) refl
