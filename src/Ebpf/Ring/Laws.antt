-- ===== src/Ebpf/Ring/Laws.antt =====
-- What the callback of the ring buffer keeps.
use slice.Base.{
  ℕ, ◌≡◌, refl, sym, ◌∙◌, Bool, true, false, not, ◌&&◌, Option, some, List, [], any, Result, ok,
  err, ◌⊎◌, ◌∷◌, ◌++◌, length, map, select, ◌==◌, Bool-cases, inl, inr, if◌then◌else◌, ok-injective,
}
use slice.Ebpf.Events.{Event, read_event}
use slice.Ebpf.Ring.{Store, Round, keep_stack, receive, receive_all, watch, drain_ring, event_size}
use slice.Ebpf.Host.{poll_ring}
use slice.Ebpf.Process.{process_exists}
use slice.Data.Text.{Text}
use mathlib.Core.List.{append_assoc, append-nil}

abbrev pub Delivery : Type 0
Delivery = (ℕ → Option (List ℕ)) × List ℕ

abbrev pub is_record : Delivery → Bool
is_record (lookup, bytes) = length bytes == event_size

abbrev pub read_all : List Delivery → List Event
read_all ds = map (λ (lookup, bytes). read_event bytes) (select is_record ds)

-- The callback keeps the records of the right size, all of them, read and in the order in which they
-- are delivered, behind those that it had before.
pub receive_all-events :
    (ds : List Delivery) (s : Store) → (receive_all ds s).events ≡ s.events ++ read_all ds
unfolding receive_all receive
receive_all-events [] s = sym (append-nil s.events)
receive_all-events ((lookup, bytes) ∷ ds) s = elim (Bool-cases (length bytes == event_size)) [
  | inl e ↦
      let s' : Store = record {
        stacks = keep_stack lookup (read_event bytes).stack_id s.stacks;
        events = s.events ++ read_event bytes ∷ [];
      } in
      simp e
        (receive_all-events ds s' ∙ append_assoc s.events (read_event bytes ∷ []) (read_all ds))
  | inr e ↦ simp e (receive_all-events ds s)
]

abbrev pub delivered_by : List Round → List Delivery
delivered_by [] = []
delivered_by (r ∷ rounds) = r.delivered ++ delivered_by rounds

pub receive_all-append :
    (ds es : List Delivery) (s : Store)
    → receive_all (ds ++ es) s ≡ receive_all es (receive_all ds s)
unfolding receive_all
receive_all-append [] es s = refl
receive_all-append ((lookup, bytes) ∷ ds) es s = receive_all-append ds es (receive lookup bytes s)

-- Does the loop end before it polls in this round?
abbrev pub is_last : Round → Bool
is_last r = not (process_exists r.status && not r.stop_before)

-- What a poll leaves of the loop.
poll_cases :
    (polled : Result Text Bool)
    → ((message : Text) × (polled ≡ err message)) ⊎ ((polled ≡ ok false) ⊎ (polled ≡ ok true))
poll_cases (err message) = inl (message, refl)
poll_cases (ok false) = inr (inl refl)
poll_cases (ok true) = inr (inr refl)

-- Does the poll of this round find that a stop is requested?
abbrev pub is_stopped : Round → Bool
is_stopped r = elim (poll_ring r.polled r.stop_after) [
  | err message ↦ false
  | ok true ↦ false
  | ok false ↦ true
]

is_stopped_lem :
    (r : Round) (b : Bool) → poll_ring r.polled r.stop_after ≡ ok b → is_stopped r ≡ not b
is_stopped_lem r true e = rw (e, is_stopped) refl
is_stopped_lem r false e = rw (e, is_stopped) refl

-- The rounds that poll, up to the one in which a stop is found.
abbrev pub polls_until_stop : List Round → List Round
polls_until_stop [] = []
polls_until_stop (r ∷ rounds) = if is_stopped r then r ∷ [] else r ∷ polls_until_stop rounds

-- So too for the loop, which ends where the target is gone or a stop is requested before the poll.
abbrev pub rounds_until_end : List Round → List Round
rounds_until_end [] = []
rounds_until_end (r ∷ rounds) =
    let rest = rounds_until_end rounds in
    if is_last r then [] else (if is_stopped r then r ∷ [] else r ∷ rest)

-- If the loop ends without an error, it has received what its rounds delivered, no more and no less.
pub watch-receive_all :
    (rounds : List Round) (s s' : Store)
    → watch rounds s ≡ some (ok s')
    → s' ≡ receive_all (delivered_by (rounds_until_end rounds)) s
unfolding watch receive_all
watch-receive_all [] s s' h = cc
watch-receive_all (r ∷ rounds) s s' h = elim (Bool-cases (is_last r)) [
  | inl e ↦ rw e (let h' = rw e at h in cc (h'))
  | inr e ↦ elim (poll_cases (poll_ring r.polled r.stop_after)) [
    | inl (message, failed) ↦ let h' = rw (e, failed) at h in cc (h')
    | inr (inl stopped) ↦
        rw (e, is_stopped_lem r false stopped, append-nil r.delivered)
          (let h' = rw (e, stopped) at h in cc (h'))
    | inr (inr on) ↦
        rw
          (
            e,
            is_stopped_lem r true on,
            receive_all-append r.delivered (delivered_by (rounds_until_end rounds)) s,
          )
          (watch-receive_all rounds (receive_all r.delivered s) s' (rw (e, on) at h))
  ]
]

pub drain_ring-receive_all :
    (rounds : List Round) (s s' : Store)
    → drain_ring rounds s ≡ ok s'
    → s' ≡ receive_all (delivered_by (polls_until_stop rounds)) s
unfolding drain_ring receive_all
drain_ring-receive_all [] s s' h = sym (ok-injective h)
drain_ring-receive_all (r ∷ rounds) s s' h = elim (poll_cases (poll_ring r.polled r.stop_after)) [
  | inl (message, failed) ↦ let h' = rw (failed, drain_ring) at h in cc (h')
  | inr (inl stopped) ↦
      rw (is_stopped_lem r false stopped, append-nil r.delivered)
        (let h' = rw (stopped, drain_ring) at h in sym (ok-injective h'))
  | inr (inr on) ↦
      rw
        (
          is_stopped_lem r true on,
          receive_all-append r.delivered (delivered_by (polls_until_stop rounds)) s,
        )
        (drain_ring-receive_all rounds (receive_all r.delivered s) s' (rw (on, drain_ring) at h))
]

-- The loop ends, at the latest in the first round in which the target is gone or a stop is
-- requested.
pub watch_ends :
    (rounds : List Round) (s : Store)
    → any is_last rounds ≡ true
    → (result : Result Text Store) × (watch rounds s ≡ some result)
unfolding watch
watch_ends [] s h = cc
watch_ends (r ∷ rounds) s h = elim (Bool-cases (is_last r)) [
  | inl e ↦ (ok s, rw e refl)
  | inr e ↦ elim (poll_cases (poll_ring r.polled r.stop_after)) [
    | inl (message, failed) ↦ (err message, rw (e, failed) refl)
    | inr (inl stopped) ↦ (ok (receive_all r.delivered s), rw (e, stopped) refl)
    | inr (inr on) ↦
        let (result, same) = watch_ends rounds (receive_all r.delivered s) (rw e at h) in
        (result, rw (e, on) same)
  ]
]

-- What comes after the round in which the loop ends does not matter.
pub watch_cut :
    (before after : List Round) (r : Round) (s : Store)
    → is_last r ≡ true
    → watch (before ++ r ∷ after) s ≡ watch (before ++ r ∷ []) s
unfolding watch
watch_cut [] after r s h = rw h refl
watch_cut (b ∷ before) after r s h = elim (Bool-cases (is_last b)) [
  | inl e ↦ rw e refl
  | inr e ↦ elim (poll_cases (poll_ring b.polled b.stop_after)) [
    | inl (message, failed) ↦ rw (e, failed) refl
    | inr (inl stopped) ↦ rw (e, stopped) refl
    | inr (inr on) ↦ rw (e, on) (watch_cut before after r (receive_all b.delivered s) h)
  ]
]

-- Does the poll of this round fail?
abbrev pub is_failed : Round → Bool
is_failed r = elim (poll_ring r.polled r.stop_after) [ err message ↦ true | ok on ↦ false ]

-- The loop ends without an error if it ends and no poll fails.
pub watch_ok :
    (rounds : List Round) (s : Store)
    → any is_last rounds ≡ true
    → any is_failed rounds ≡ false
    → (s' : Store) × (watch rounds s ≡ some (ok s'))
unfolding watch
watch_ok [] s h no_failure = cc
watch_ok (r ∷ rounds) s h no_failure = elim (Bool-cases (is_last r)) [
  | inl e ↦ (s, rw e refl)
  | inr e ↦ elim (poll_cases (poll_ring r.polled r.stop_after)) [
    | inl (message, failed) ↦ let h' = rw (failed, is_failed) at no_failure in cc (h')
    | inr (inl stopped) ↦ (receive_all r.delivered s, rw (e, stopped) refl)
    | inr (inr on) ↦
        let (s', same) =
          watch_ok rounds (receive_all r.delivered s) (rw e at h)
            (rw (on, is_failed) at no_failure) in
        (s', rw (e, on) same)
  ]
]

pub drain_ring_ok :
    (rounds : List Round) (s : Store)
    → any is_failed rounds ≡ false
    → (s' : Store) × (drain_ring rounds s ≡ ok s')
unfolding drain_ring
drain_ring_ok [] s no_failure = (s, refl)
drain_ring_ok (r ∷ rounds) s no_failure = elim (poll_cases (poll_ring r.polled r.stop_after)) [
  | inl (message, failed) ↦ let h' = rw (failed, is_failed) at no_failure in cc (h')
  | inr (inl stopped) ↦ (receive_all r.delivered s, rw (stopped, drain_ring) refl)
  | inr (inr on) ↦
      let (s', same) =
        drain_ring_ok rounds (receive_all r.delivered s) (rw (on, is_failed) at no_failure) in
      (s', rw (on, drain_ring) same)
]
