-- ===== src/Ebpf/Events/Order.antt =====
-- crates/slice-ebpf/src/lib.rs: the order of `sort_events`.
use mathlib.Core.List.{Perm}
use slice.Base.{
  ℕ, suc, ◌≡◌, sym, ◌∙◌, true, false, Bool, ◌&&◌, ◌||◌, List, [], ◌∷◌, All-map, contains, ltb, ◌==◌,
  if◌then◌else◌, arith,
}
use slice.Data.Sort.{sort-perm, sort-IsSorted, IsSorted}
use slice.Ebpf.Events.{Event, event_leb, event_kind_order, sort_events}

-- The kinds of records at one time: entries, samples on and off the CPU, returns, violations.
abbrev kinds : List (List ℕ)
kinds = (1 ∷ []) ∷ (3 ∷ 5 ∷ []) ∷ (2 ∷ []) ∷ (4 ∷ []) ∷ []

-- The place of a kind among the given ones, that behind the last for any other.
abbrev place : ℕ → List (List ℕ) → ℕ
place kind [] = 0
place kind (same ∷ later) = if contains kind same then 0 else suc (place kind later)

-- What a record is sorted by, the most important first.
abbrev key : Event → List ℕ
key e = e.timestamp_ns ∷ e.tid ∷ e.invocation_id ∷ place e.kind kinds ∷ []

-- The lexicographic order of keys.
abbrev lex_leb : List ℕ → List ℕ → Bool
lex_leb [] ys = true
lex_leb (x ∷ xs) [] = false
lex_leb (x ∷ xs) (y ∷ ys) = ltb x y || ((x == y) && lex_leb xs ys)

abbrev pub by_key : Event → Event → Bool
by_key a b = lex_leb (key a) (key b)

event_kind_order-place : (kind : ℕ) → event_kind_order kind ≡ place kind kinds
unfolding event_kind_order
event_kind_order-place kind = ground arith

event_leb-by_key : (a b : Event) → event_leb a b ≡ by_key a b
unfolding event_leb
event_leb-by_key a b =
    rw (event_kind_order-place a.kind, event_kind_order-place b.kind) (ground arith)

event_leb_total : (a b : Event) → event_leb a b ≡ false → event_leb b a ≡ true
unfolding event_leb
event_leb_total a b h = ground arith

event_leb_trans :
    (a b c : Event) → event_leb a b ≡ true → event_leb b c ≡ true → event_leb a c ≡ true
unfolding event_leb
event_leb_trans a b c h k = ground arith

IsSorted-by_key : (events : List Event) → IsSorted event_leb events → IsSorted by_key events
IsSorted-by_key [] s = tt
IsSorted-by_key (e ∷ events) s =
    (All-map _ _ (λ x h. sym (event_leb-by_key e x) ∙ h) events s.0, IsSorted-by_key events s.1)

-- The sorted records are the delivered ones, each as often as it was delivered. Each stands before
-- all that are later, before those of the same time whose thread has a larger number, then those of a
-- larger invocation, and of the same invocation an entry stands before samples, these before a return,
-- and this before a violation and other kinds.
pub sort_events-IsSorted :
    (events : List Event) → Perm (sort_events events) events × IsSorted by_key (sort_events events)
unfolding sort_events
sort_events-IsSorted events = (
  sort-perm event_leb events,
  IsSorted-by_key _ (sort-IsSorted event_leb event_leb_total event_leb_trans events),
)
