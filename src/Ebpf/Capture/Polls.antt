-- ===== src/Ebpf/Capture/Polls.antt =====
-- What the loop of a capture and the polls after it receive.
use slice.Base.{
  All, subst, ◌≡◌, refl, ap, ◌∙◌, sym, true, false, Option, none, some, List, ◌++◌, any, Result, ok,
  err, Result-cases, inl, inr, ◌⊎◌,
}
use slice.Data.Text.{Text}
use slice.Ebpf.Capture.{World, last_three, collect}
use slice.Ebpf.Ring.Laws.{
  Delivery, receive_all-append, delivered_by, is_last, polls_until_stop, rounds_until_end,
  watch-receive_all, drain_ring-receive_all, watch_ends, watch_ok, drain_ring_ok, is_failed,
}
use slice.Ebpf.Ring.Widths.{IsByteDelivery, IsTypedStore, receive_all-IsTypedStore}
use slice.Ebpf.Ring.{Store, no_store, watch, drain_ring, receive_all}
use slice.Ebpf.Session.Steps.{any-append_false}

-- All that is delivered before the loop ends and in the polls after it.
abbrev pub delivered : World → List Delivery
delivered w =
    delivered_by (rounds_until_end w.rounds) ++ delivered_by (polls_until_stop (last_three w))

-- How the loop and the last polls can end.
pub end_cases :
    (end : Option (Result Text Store))
    → (end ≡ none)
      ⊎ (((message : Text) × (end ≡ some (err message))) ⊎ ((s : Store) × (end ≡ some (ok s))))
end_cases none = inl refl
end_cases (some (err message)) = inr (inl (message, refl))
end_cases (some (ok s)) = inr (inr (s, refl))

pub some_ok {ℓ κ} :
    {E : Type ℓ} {A : Type κ} {a b : A}
    → ◌≡◌ {A = Option (Result E A)} (some (ok a)) (some (ok b))
    → a ≡ b
some_ok h = cc

pub collect-receive_all :
    (w : World) (s : Store) → collect w ≡ some (ok s) → s ≡ receive_all (delivered w) no_store
unfolding collect
collect-receive_all w s h = elim (end_cases (watch w.rounds no_store)) [
  | inl more ↦ let h' = rw (more, collect) at h in cc (h')
  | inr (inl (message, failed)) ↦ let h' = rw (failed, collect) at h in cc (h')
  | inr (inr (s', ended)) ↦
      let drained : drain_ring (last_three w) s' ≡ ok s =
        (let h' = rw (ended, collect) at h in cc (h')) in
      drain_ring-receive_all (last_three w) s' s drained
      ∙ ap (receive_all (delivered_by (polls_until_stop (last_three w))))
          (watch-receive_all w.rounds no_store s' ended)
      ∙ sym (receive_all-append (delivered_by (rounds_until_end w.rounds)) _ no_store)
]

pub collect_ends :
    (w : World)
    → any is_last w.rounds ≡ true
    → (result : Result Text Store) × (collect w ≡ some result)
unfolding collect
collect_ends w h =
    let (result, ended) = watch_ends w.rounds no_store h in
    elim (Result-cases result) [
      | inl (s, e) ↦ (drain_ring (last_three w) s, rw (ended, e, collect) refl)
      | inr (message, e) ↦ (err message, rw (ended, e, collect) refl)
    ]

pub collect_ok :
    (w : World)
    → any is_last w.rounds ≡ true
    → any is_failed (w.rounds ++ last_three w) ≡ false
    → collect w ≡ some (ok (receive_all (delivered w) no_store))
unfolding collect
collect_ok w h no_failure =
    let (in_loop, after) = any-append_false is_failed w.rounds (last_three w) no_failure in
    let (s, ended) = watch_ok w.rounds no_store h in_loop in
    let (s', drained) = drain_ring_ok (last_three w) s after in
    let whole : collect w ≡ some (ok s') = rw (ended, collect) (ap some drained) in
    whole ∙ ap (λ t. some (ok t)) (collect-receive_all w s' whole)

-- If all that is delivered consists of bytes, as do the stacks that the BPF map holds, then all that
-- the capture keeps fits the types of its fields: the records, with stack numbers that are not
-- negative, and the addresses of the stacks, which are not 0.
pub collect-IsTypedStore :
    (w : World) (s : Store)
    → All IsByteDelivery (delivered w)
    → collect w ≡ some (ok s)
    → IsTypedStore s
collect-IsTypedStore w s bytes h =
    subst IsTypedStore (sym (collect-receive_all w s h))
      (receive_all-IsTypedStore (delivered w) no_store bytes (record { events = tt; stacks = tt }))
