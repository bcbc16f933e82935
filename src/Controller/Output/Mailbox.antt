-- ===== src/Controller/Output/Mailbox.antt =====
-- output_simulator.cpp: the word in the mailbox holds the whole display.
use native.Mathlib.Nat.{mod-eq_of_lt}
use adaptive_traffic_light.Prelude.{
  ℕ, ◌+◌, ◌-◌, ◌*◌, ◌/◌, ◌^◌, ◌<◌, ◌≡◌, ◌≢◌, refl, sym, ap, ◌∙◌, Bool, true, ◌||◌, not, ◌==◌, arith,
  if-elim, u64, bit_and, bit_or, bit_or-shifted, bit_and-ones, Option, some, Timespec,
}
use adaptive_traffic_light.Ipc.SignalMessage.{SignalStateMessage}
use adaptive_traffic_light.Controller.Config.{
  PhaseId, ns_green, yellow, all_red, ew_green, SignalGroup, north_south, east_west, phase_code,
  group_code, SignalDisplay,
}
use adaptive_traffic_light.Controller.Output.{
  OutputSimulator, following_sequence, pack, sequence_of, unpack, shown_time, phase_of_code,
  group_of_code, submit, run_round,
}

-- The word as a sum of its fields.
fields : ℕ → ℕ → ℕ → ℕ → ℕ → ℕ
fields s g p e n = (((s * 2 + g) * 4 + p) * 1048576 + e) * 1048576 + n

low_bits : (k n : ℕ) → n < 2 ^ k → bit_and n (2 ^ k - 1) ≡ n
low_bits k n h = bit_and-ones k n ∙ mod-eq_of_lt h

or_field : (k q r : ℕ) → r < 2 ^ k → (x : ℕ) → x ≡ q * 2 ^ k → bit_or x r ≡ q * 2 ^ k + r
or_field k q r h x e = ap (λ (y : ℕ). bit_or y r) e ∙ bit_or-shifted k q r h

numbers-pack :
    (s g p e n : ℕ)
    → s < 2 ^ 21
    → g < 2
    → p < 4
    → e < 2 ^ 20
    → n < 2 ^ 20
    → bit_or (bit_or (bit_or (bit_or (s * 2 ^ 43) (g * 2 ^ 42)) (p * 2 ^ 40)) (e * 2 ^ 20)) n
      ≡ fields s g p e n
unfolding fields
numbers-pack s g p e n hs hg hp he hn =
    let x = bit_or (s * 2 ^ 43) (g * 2 ^ 42) in
    let y = bit_or x (p * 2 ^ 40) in
    let z = bit_or y (e * 2 ^ 20) in
    let a = bit_or-shifted 43 s (g * 2 ^ 42) (omega arith) in
    let b = or_field 42 (s * 2 + g) (p * 2 ^ 40) (omega arith) x (omega (arith, a)) in
    let c = or_field 40 ((s * 2 + g) * 4 + p) (e * 2 ^ 20) (omega arith) y (omega (arith, b)) in
    or_field 20 (((s * 2 + g) * 4 + p) * 1048576 + e) n hn z (omega (arith, c))

group-lt : (g : SignalGroup) → group_code g < 2
group-lt north_south = omega arith
group-lt east_west = omega arith

phase-lt : (p : PhaseId) → phase_code p < 4
phase-lt ns_green = omega arith
phase-lt yellow = omega arith
phase-lt all_red = omega arith
phase-lt ew_green = omega arith

shape-pack :
    (s : ℕ) (d : SignalDisplay)
    → s < 2 ^ 21
    → d.east_west_remaining_time_ms < 2 ^ 20
    → d.north_south_remaining_time_ms < 2 ^ 20
    → pack s d
      ≡ fields s
          (group_code d.active_group)
          (phase_code d.phase_id)
          d.east_west_remaining_time_ms
          d.north_south_remaining_time_ms
unfolding pack
shape-pack s d h he hn =
    let lg = group-lt d.active_group in
    let lp = phase-lt d.phase_id in
    let g = low_bits 1 (group_code d.active_group) lg in
    let p = low_bits 2 (phase_code d.phase_id) lp in
    let e = low_bits 20 d.east_west_remaining_time_ms he in
    let n = low_bits 20 d.north_south_remaining_time_ms hn in
    let s1 = mod-eq_of_lt {n = s * 2 ^ 43} {m = 2 ^ 64} (omega arith) in
    let g1 =
      mod-eq_of_lt {n = group_code d.active_group * 2 ^ 42} {m = 2 ^ 64} (omega (arith, lg)) in
    let p1 = mod-eq_of_lt {n = phase_code d.phase_id * 2 ^ 40} {m = 2 ^ 64} (omega (arith, lp)) in
    let e1 = mod-eq_of_lt {n = d.east_west_remaining_time_ms * 2 ^ 20} {m = 2 ^ 64} (omega arith) in
    rw (g, p, e, n, s1, g1, p1, e1)
      (numbers-pack s (group_code d.active_group) (phase_code d.phase_id)
        d.east_west_remaining_time_ms d.north_south_remaining_time_ms h lg lp he hn)

phase_of_code-phase_code : (p : PhaseId) → phase_of_code (phase_code p) ≡ p
phase_of_code-phase_code ns_green = refl
phase_of_code-phase_code yellow = refl
phase_of_code-phase_code all_red = refl
phase_of_code-phase_code ew_green = refl

group_of_code-group_code : (g : SignalGroup) → group_of_code (group_code g) ≡ g
group_of_code-group_code north_south = refl
group_of_code-group_code east_west = refl

-- Reading the fields of the sum.
fields-read :
    (s g p e n : ℕ)
    → s < 2 ^ 21
    → g < 2
    → p < 4
    → e < 2 ^ 20
    → n < 2 ^ 20
    → let w = fields s g p e n in
      (bit_and (w / 2 ^ 43) (2 ^ 21 - 1) ≡ s)
      × (bit_and (w / 2 ^ 42) (2 ^ 1 - 1) ≡ g)
      × (bit_and (w / 2 ^ 40) (2 ^ 2 - 1) ≡ p)
      × (bit_and (w / 2 ^ 20) (2 ^ 20 - 1) ≡ e)
      × (bit_and w (2 ^ 20 - 1) ≡ n)
unfolding fields
fields-read s g p e n hs hg hp he hn =
    let w = (((s * 2 + g) * 4 + p) * 1048576 + e) * 1048576 + n in
    (
      bit_and-ones 21 (w / 2 ^ 43) ∙ omega arith,
      bit_and-ones 1 (w / 2 ^ 42) ∙ omega arith,
      bit_and-ones 2 (w / 2 ^ 40) ∙ omega arith,
      bit_and-ones 20 (w / 2 ^ 20) ∙ omega arith,
      bit_and-ones 20 w ∙ omega arith,
    )

-- A display that fits into the word: both countdowns are below 2^20 ms, and the remaining time is
-- the one that its phase shows.
pub record Fits (d : SignalDisplay) : Type 0 where
  pub ns_fits : d.north_south_remaining_time_ms < 2 ^ 20
  pub ew_fits : d.east_west_remaining_time_ms < 2 ^ 20
  pub shown :
      d.remaining_time_ms
      ≡ shown_time d.phase_id d.active_group d.north_south_remaining_time_ms
          d.east_west_remaining_time_ms

-- What submit() packs into the mailbox, run() unpacks: the sequence number and the whole display,
-- for every sequence number below 2^21 and every display that fits.
pub unpack-pack :
    (s : ℕ) (d : SignalDisplay)
    → s < 2 ^ 21
    → Fits d
    → (sequence_of (pack s d) ≡ s) × (unpack (pack s d) ≡ d)
unfolding unpack
unpack-pack s d h v =
    let w = shape-pack s d h v.ew_fits v.ns_fits in
    let r =
      fields-read s (group_code d.active_group) (phase_code d.phase_id)
        d.east_west_remaining_time_ms d.north_south_remaining_time_ms h (group-lt d.active_group)
        (phase-lt d.phase_id) v.ew_fits v.ns_fits in
    (
      rw w r.0,
      rw
          (
            w,
            r.1,
            r.2,
            r.3,
            r.4,
            phase_of_code-phase_code d.phase_id,
            group_of_code-group_code d.active_group,
            v.shown,
          )
          refl,
    )

-- The sequence number after another is never 0, fits its field, and is not the same, so that
-- run() takes the word for a new one.
pub following_sequence_lem :
    (n : ℕ)
    → n < 2 ^ 21
    → (following_sequence n ≢ 0) × (following_sequence n < 2 ^ 21) × (following_sequence n ≢ n)
unfolding following_sequence
following_sequence_lem n h = rw (bit_and-ones 21 (u64 (n + 1))) (ground arith)

submit-mailbox :
    (post_ok : Bool) (d : SignalDisplay) (o : OutputSimulator)
    → ((submit post_ok d o).0.mailbox ≡ pack (following_sequence o.next_sequence) d)
      × ((submit post_ok d o).0.running ≡ o.running)
unfolding submit
submit-mailbox post_ok d o = ground arith

-- What a round shows when the mailbox has something new.
run_round-new :
    (clock : Option Timespec) (sent_ok : Bool) (last : ℕ) (o : OutputSimulator)
    → o.running ≡ true
    → sequence_of o.mailbox ≢ 0
    → last ≢ sequence_of o.mailbox
    → (sent : Option SignalStateMessage) × ((run_round clock sent_ok last o).2
        ≡ some (unpack o.mailbox, sent))
unfolding run_round
run_round-new clock sent_ok last o r h k =
    if-elim
      (λ (x : ℕ × OutputSimulator × Option (SignalDisplay × Option SignalStateMessage)).
        (sent : Option SignalStateMessage) × (x.2 ≡ some (unpack o.mailbox, sent)))
      (not o.running) (λ e. absurd (ground arith))
      (λ _.
        if-elim
          (λ (x : ℕ × OutputSimulator × Option (SignalDisplay × Option SignalStateMessage)).
            (sent : Option SignalStateMessage) × (x.2 ≡ some (unpack o.mailbox, sent)))
          (sequence_of o.mailbox == 0 || sequence_of o.mailbox == last) (λ e. absurd (ground arith))
          (λ _. (_, refl)))

-- Whether or not the semaphore is posted, the next round of run() shows the display of the last
-- submit(), if that display fits, the thread is not told to stop, and the sequence number that was
-- shown last is not the new one.
pub run_round-submit :
    (clock : Option Timespec) (post_ok sent_ok : Bool) (last : ℕ) (d : SignalDisplay)
    (o : OutputSimulator)
    → Fits d
    → o.running ≡ true
    → o.next_sequence < 2 ^ 21
    → last ≢ following_sequence o.next_sequence
    → (sent : Option SignalStateMessage) × ((run_round clock sent_ok last (submit post_ok d o).0).2
        ≡ some (d, sent))
run_round-submit clock post_ok sent_ok last d o v r h k =
    let f = following_sequence_lem o.next_sequence h in
    let m = submit-mailbox post_ok d o in
    let u = unpack-pack (following_sequence o.next_sequence) d f.1 v in
    let w = (submit post_ok d o).0 in
    let e = ap sequence_of m.0 ∙ u.0 in
    let shown =
      run_round-new clock sent_ok last w (m.1 ∙ r) (λ z. f.0 (sym e ∙ z)) (λ z. k (z ∙ e)) in
    (shown.0, shown.1 ∙ ap (λ x. some (x, shown.0)) (ap unpack m.0 ∙ u.1))
