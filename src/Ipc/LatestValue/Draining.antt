-- ===== src/Ipc/LatestValue/Draining.antt =====
-- receiveLatest(): the loop empties the queue within its rounds, and keeps the newest message.
use adaptive_traffic_light.Prelude.{
  ℕ, zero, suc, ◌≤◌, ◌≡◌, ◌≢◌, refl, sym, ◌∙◌, ap, not, if-elim, if◌then◌else◌, Bool, true, ◌⊎◌,
  inl, inr, Option, none, some, List, [], ◌∷◌, ◌++◌, length, arith,
}
use adaptive_traffic_light.Ipc.Errno.{Errno, no_error, eagain, emsgsize, is_eagain}
use adaptive_traffic_light.Ipc.QueueStatus.{
  QueueStatus, success, busy, empty, not_found, deferred, contract_mismatch, system_error,
}
use adaptive_traffic_light.Ipc.LatestValue.{
  Channel, IsPosix, LatestValueConsumer, Received, message, other_size, failed, try_lock, drain,
  receive_latest, queue_depth, is_open,
}

-- The last element, or what there was before.
abbrev pub newest {ℓ} : {A : Type ℓ} → Option A → List A → Option A
newest o [] = o
newest o (x ∷ xs) = newest (some x) xs

pub newest-append {ℓ} :
    {A : Type ℓ} (o : Option A) (xs : List A) (a : A) → newest o (xs ++ (a ∷ [])) ≡ some a
newest-append o [] a = refl
newest-append o (x ∷ xs) a = newest-append (some x) xs a

module _ {M : Type 0} where
  none_new : (m : M) (xs : List M) → none ≢ newest (some m) xs
  none_new m [] h = absurd (grind arith)
  none_new m (x ∷ xs) h = none_new x xs h

  all_gone : (xs : List M) → none ≡ newest none xs → xs ≡ []
  all_gone [] h = refl
  all_gone (x ∷ xs) h = absurd (none_new x xs h)

module _ {M : Type 0} (c : Channel M) where
  open c use {World, contents, permits}

  -- The newest message is still in the queue, or the queue is empty.
  abbrev pub IsSpared : World → World → Type 0
  IsSpared w v = (newest none (contents v) ≡ newest none (contents w)) ⊎ (contents v ≡ [])

  -- Where the loop stops: it was refused a message, or it has emptied the queue.
  abbrev Drained : Option M → World → (Option (QueueStatus × Errno) × Option M) × World → Type 0
  Drained o w ((some (s, e), m), v) = ((s ≡ system_error) ⊎ (s ≡ contract_mismatch)) × IsSpared w v
  Drained o w ((none, m), v) = (m ≡ newest o (contents w)) × (contents v ≡ [])

  module _ (posix : IsPosix c) where
    open posix use {bounded, locked, unlocked, received, nothing, misread, none_there}

    is_eagain_iff : (e : Errno) → is_eagain e ≡ true → e ≡ eagain
    is_eagain_iff eagain h = refl
    is_eagain_iff _ h = absurd (grind arith)

    no_elements : (xs : List M) → length xs ≤ 0 → xs ≡ []
    no_elements [] h = refl
    no_elements (x ∷ xs) h = absurd (omega arith)

    after_receive :
        (n : ℕ) (o : Option M) (w v : World) (r : Received M)
        → ((m : M) → r ≡ message m → Drained o w (drain c n (some m) v))
        → ((e : Errno) → r ≡ failed e → is_eagain e ≡ true → (contents w ≡ []) × (contents v ≡ []))
        → ((e : Errno) → r ≡ failed e → contents v ≡ contents w)
        → (r ≡ other_size → contents v ≡ contents w)
        → Drained o w (elim r [
          | message m ↦ drain c n (some m) v
          | other_size ↦ ((some (contract_mismatch, emsgsize), o), v)
          | failed e ↦ if is_eagain e then ((none, o), v) else ((some (system_error, e), o), v)
        ])
    after_receive n o w v (message m) more gone kept odd = more m refl
    after_receive n o w v other_size more gone kept odd =
        (inr refl, inl (ap (newest none) (odd refl)))
    after_receive n o w v (failed e) more gone kept odd =
        if-elim (Drained o w) (is_eagain e)
          (λ t. let (there, left) = gone e refl t in (rw there refl, left))
          (λ _. (inl refl, inl (ap (newest none) (kept e refl))))

    -- A message that is taken and is not the only one is not the newest.
    spared_after :
        (before all after : List M) (m : M)
        → all ≡ m ∷ before
        → (newest none after ≡ newest none before) ⊎ (after ≡ [])
        → (newest none after ≡ newest none all) ⊎ (after ≡ [])
    spared_after [] all after m h (inl e) = inr (all_gone after (sym e))
    spared_after (x ∷ before) all after m h (inl e) = inl (rw h e)
    spared_after before all after m h (inr e) = inr e

    Drained-after :
        (o : Option M) (m : M) (w v : World) (r : (Option (QueueStatus × Errno) × Option M) × World)
        → contents w ≡ m ∷ contents v
        → Drained (some m) v r
        → Drained o w r
    Drained-after o m w v ((some (s, e), x), u) h (d, spared) =
        (d, spared_after (contents v) (contents w) (contents u) m h spared)
    Drained-after o m w v ((none, x), u) h d = (rw h d.0, d.1)

    drain-Drained :
        (n : ℕ) (o : Option M) (w : World) → length (contents w) ≤ n → Drained o w (drain c n o w)
    unfolding drain
    drain-Drained zero o w h =
        let none_left = no_elements (contents w) h in (rw none_left refl, none_left)
    drain-Drained (suc n) o w h =
        after_receive n o w v (c.mq_receive w).0
          (λ m e.
            let took = received w m e in
            Drained-after o m w v _ took (drain-Drained n (some m) v (shorter m took)))
          (λ e f t.
            let g : (c.mq_receive w).0 ≡ failed eagain = f ∙ ap failed (is_eagain_iff e t) in
            (none_there w g, nothing w eagain g ∙ none_there w g))
          (λ e f. nothing w e f) (λ f. misread w f)
      where
        v : World
        v = (c.mq_receive w).1

        shorter : (m : M) → contents w ≡ m ∷ contents v → length (contents v) ≤ n
        shorter m e = omega (arith, ap length e, h)

  -- What the consumer is told, and what is left in the queue: the newest message and none of the
  -- older ones; that there is none; or an error, and then `latest` is not written.
  abbrev pub Taken : World → QueueStatus × Option M × LatestValueConsumer × World → Type 0
  Taken w (success, o, k, v) =
      (m : M) × (o ≡ some m) × (newest none (contents w) ≡ some m) × (contents v ≡ [])
  Taken w (empty, o, k, v) = (o ≡ none) × (contents w ≡ []) × (contents v ≡ [])
  Taken w (busy, o, k, v) = (o ≡ none) × (contents v ≡ contents w)
  Taken w (not_found, o, k, v) = (o ≡ none) × (contents v ≡ contents w)
  Taken w (deferred, o, k, v) = ⊥
  Taken w (_, o, k, v) = (o ≡ none) × IsSpared w v

  module _ (posix : IsPosix c) where
    open posix use {bounded, locked, unlocked}

    candidate-Taken :
        (k : LatestValueConsumer) (w v : World) (o : Option M)
        → o ≡ newest none (contents w)
        → contents v ≡ []
        → Taken w (elim o [
          | none ↦ (empty, none, record k { last_error = eagain }, v)
          | some m ↦ (success, some m, record k { last_error = no_error }, v)
        ])
    candidate-Taken k w v none e left = (refl, all_gone (contents w) e, left)
    candidate-Taken k w v (some m) e left = (m, refl, sym e, left)

    Taken-moved :
        (w v : World) (r : QueueStatus × Option M × LatestValueConsumer × World)
        → contents v ≡ contents w
        → Taken v r
        → Taken w r
    Taken-moved w v (success, o, k, u) same t = rw (← same) t
    Taken-moved w v (empty, o, k, u) same t = rw (← same) t
    Taken-moved w v (busy, o, k, u) same t = rw (← same) t
    Taken-moved w v (deferred, o, k, u) same t = t
    Taken-moved w v (not_found, o, k, u) same t = rw (← same) t
    Taken-moved w v (contract_mismatch, o, k, u) same t = rw (← same) t
    Taken-moved w v (system_error, o, k, u) same t = rw (← same) t

    released : (w v : World) → IsSpared w v → IsSpared w (c.sem_post v)
    released w v h = rw (unlocked v) h

    stopped-Taken :
        (k : LatestValueConsumer) (w : World)
        (d : (Option (QueueStatus × Errno) × Option M) × World)
        → Drained none w d
        → Taken w (elim d.0.0 [
          | some (t, f) ↦ (t, none, record k { last_error = f }, c.sem_post d.1)
          | none ↦ elim d.0.1 [
            | none ↦ (empty, none, record k { last_error = eagain }, c.sem_post d.1)
            | some m ↦ (success, some m, record k { last_error = no_error }, c.sem_post d.1)
          ]
        ])
    stopped-Taken k w ((some (t, f), o), v) (inl e, spared) = rw e (refl, released w v spared)
    stopped-Taken k w ((some (t, f), o), v) (inr e, spared) = rw e (refl, released w v spared)
    stopped-Taken k w ((none, o), v) (same, left) =
        candidate-Taken k w (c.sem_post v) o same (unlocked v ∙ left)

    try_lock-cases :
        (b : Bool) (w : World)
        → let s = (try_lock c b w).0 in (s ≡ success) ⊎ (s ≡ busy) ⊎ (s ≡ system_error)
    unfolding try_lock
    try_lock-cases b w = ground arith

    try_lock-contents : (b : Bool) (w : World) → contents (try_lock c b w).2 ≡ contents w
    unfolding try_lock
    try_lock-contents b w = ground (arith, locked w)

    locked-Taken :
        (k : LatestValueConsumer) (w v : World) (s : QueueStatus) (e : Errno)
        → (s ≡ success) ⊎ (s ≡ busy) ⊎ (s ≡ system_error)
        → contents v ≡ contents w
        → Taken w (elim s [
          | success ↦
              let ((stopped, candidate), u) = drain c queue_depth none v in
              elim stopped [
                | some (t, f) ↦ (t, none, record k { last_error = f }, c.sem_post u)
                | none ↦ elim candidate [
                  | none ↦ (empty, none, record k { last_error = eagain }, c.sem_post u)
                  | some m ↦ (success, some m, record k { last_error = no_error }, c.sem_post u)
                ]
              ]
          | other ↦ (other, none, record k { last_error = e }, v)
        ])
    locked-Taken k w v s e (inl h) same = rw h (
        Taken-moved w v _ same
          (stopped-Taken k v _ (drain-Drained posix queue_depth none v (bounded v))))
    locked-Taken k w v s e (inr (inl h)) same = rw h (refl, same)
    locked-Taken k w v s e (inr (inr h)) same = rw h (refl, inl (ap (newest none) same))

    -- receiveLatest() on every branch: success gives the newest message of the queue and leaves the
    -- queue empty; it says that there is none only of an empty queue; a lock that another process
    -- holds, or a consumer that is not open, leaves the queue as it is; an error leaves the newest
    -- message in the queue, or the queue empty; and without success `latest` is not written.
    pub receive_latest-Taken :
        (k : LatestValueConsumer) (w : World) → Taken w (receive_latest c k w)
    unfolding receive_latest
    receive_latest-Taken k w =
        if-elim (Taken w) (not (is_open k)) (λ _. (refl, refl))
          (λ _.
            locked-Taken k w _ _ _ (try_lock-cases k.semaphore_open w)
              (try_lock-contents k.semaphore_open w))
