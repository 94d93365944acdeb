-- ===== src/Ebpf/Ring/Widths.antt =====
-- What the callback of the ring buffer keeps fits the types of its fields, whatever is delivered.
use slice.Base.{
  ℕ, zero, suc, ◌^◌, ◌<◌, ◌≡◌, refl, subst, Option, none, some, List, [], ◌∷◌, All, All-append,
  take, drop, length, ◌==◌, ltb, ltb→lt, Bool-cases, Option-cases, inl, inr, arith,
}
use slice.Data.Maps.{insert}
use slice.Ebpf.Events.Wire.{byte_limit}
use slice.Ebpf.Events.{Event, read_event, from_bytes, field_at, stack_index}
use slice.Ebpf.Ring.Laws.{Delivery}
use slice.Ebpf.Ring.{Store, addresses, keep_stack, receive, receive_all, event_size}

abbrev pub IsBytes : List ℕ → Type 0
IsBytes = All λ b. b < 256

-- The fields of a record in their types; the number of a stack is an `i32` that is not negative.
pub record IsTypedEvent (e : Event) : Type 0 where
  pub kind : e.kind < 2 ^ 32
  pub tid : e.tid < 2 ^ 32
  pub timestamp_ns : e.timestamp_ns < 2 ^ 64
  pub invocation_id : e.invocation_id < 2 ^ 64
  pub stack_id : (id : ℕ) → e.stack_id ≡ some id → id < 2 ^ 31
  pub cpu : e.cpu < 2 ^ 32
  pub weight_ns : e.weight_ns < 2 ^ 64

abbrev pub IsTypedStack : ℕ × List ℕ → Type 0
IsTypedStack (id, stack) = (id < 2 ^ 31) × All (λ address. (0 < address) × (address < 2 ^ 64)) stack

pub record IsTypedStore (s : Store) : Type 0 where
  pub events : All IsTypedEvent s.events
  pub stacks : All IsTypedStack s.stacks

-- A record and all stacks that the BPF map holds consist of bytes.
abbrev pub IsByteDelivery : Delivery → Type 0
IsByteDelivery (lookup, bytes) =
    IsBytes bytes × ((id : ℕ) (raw : List ℕ) → lookup id ≡ some raw → IsBytes raw)

byte_limit-pos : (count : ℕ) → 0 < byte_limit count
byte_limit-pos zero = omega arith
byte_limit-pos (suc count) = omega (arith, byte_limit-pos count)

from_bytes-take :
    (count : ℕ) (bytes : List ℕ) → IsBytes bytes → from_bytes (take count bytes) < byte_limit count
from_bytes-take zero bytes h = omega arith
from_bytes-take (suc count) [] h = omega (arith, byte_limit-pos count)
from_bytes-take (suc count) (b ∷ bytes) h = omega (arith, h.0, from_bytes-take count bytes h.1)

drop-IsBytes : (count : ℕ) (bytes : List ℕ) → IsBytes bytes → IsBytes (drop count bytes)
drop-IsBytes zero bytes h = h
drop-IsBytes (suc count) [] h = tt
drop-IsBytes (suc count) (b ∷ bytes) h = drop-IsBytes count bytes h.1

field_at-lt :
    (from count : ℕ) (bytes : List ℕ) → IsBytes bytes → field_at from count bytes < byte_limit count
field_at-lt from count bytes h = from_bytes-take count (drop from bytes) (drop-IsBytes from bytes h)

stack_index-lt : (bits id : ℕ) → stack_index bits ≡ some id → id < 2 ^ 31
stack_index-lt bits id h = elim (Bool-cases (ltb bits (2 ^ 31))) [
  | inl e ↦
      let small : bits < 2 ^ 31 = ltb→lt _ _ e in
      let h' = rw e at h in (let same : bits ≡ id = cc in subst (λ n. n < 2 ^ 31) same small)
  | inr e ↦ let h' = rw e at h in cc (h')
]

read_event-IsTypedEvent : (bytes : List ℕ) → IsBytes bytes → IsTypedEvent (read_event bytes)
unfolding read_event
read_event-IsTypedEvent bytes h = record {
  kind = field_at-lt 0 4 bytes h;
  tid = field_at-lt 4 4 bytes h;
  timestamp_ns = field_at-lt 8 8 bytes h;
  invocation_id = field_at-lt 16 8 bytes h;
  stack_id = λ id e. stack_index-lt _ id e;
  cpu = field_at-lt 28 4 bytes h;
  weight_ns = field_at-lt 32 8 bytes h;
}

addresses_typed :
    (raw : List ℕ)
    → IsBytes raw
    → All (λ address. (0 < address) × (address < 2 ^ 64)) (addresses raw)
unfolding addresses
addresses_typed (a ∷ b ∷ c ∷ d ∷ e ∷ f ∷ g ∷ h ∷ rest)
      (pa, (pb, (pc, (pd, (pe, (pf, (pg, (ph, more)))))))) =
    let address = from_bytes (a ∷ b ∷ c ∷ d ∷ e ∷ f ∷ g ∷ h ∷ []) in
    let small : address < 2 ^ 64 = omega (arith, pa, pb, pc, pd, pe, pf, pg, ph) in
    let follow = addresses_typed rest more in
    elim (Bool-cases (address == 0)) [
      | inl end ↦ rw end tt
      | inr on ↦ rw on ((ground (arith, on), small), follow)
    ]
addresses_typed _ h = tt

insert-All :
    (id : ℕ) (stack : List ℕ) (stacks : List (ℕ × List ℕ))
    → IsTypedStack (id, stack)
    → All IsTypedStack stacks
    → All IsTypedStack (insert id stack stacks)
insert-All id stack [] h a = (h, tt)
insert-All id stack ((k, v) ∷ m) h a = elim (Bool-cases (k == id)) [
  | inl e ↦ rw e (h, a.1)
  | inr e ↦ rw e (a.0, insert-All id stack m h a.1)
]

keep_stack_typed :
    (lookup : ℕ → Option (List ℕ))
    → ((id : ℕ) (raw : List ℕ) → lookup id ≡ some raw → IsBytes raw)
    → (o : Option ℕ) → ((id : ℕ) → o ≡ some id → id < 2 ^ 31)
    → (stacks : List (ℕ × List ℕ)) → All IsTypedStack stacks
    → All IsTypedStack (keep_stack lookup o stacks)
unfolding keep_stack
keep_stack_typed lookup held none small stacks a = a
keep_stack_typed lookup held (some id) small stacks a = elim (Option-cases (lookup id)) [
  | inl e ↦ rw (e, keep_stack) a
  | inr (raw, e) ↦
      rw (e, keep_stack)
        (insert-All id (addresses raw) stacks (small id refl, addresses_typed raw (held id raw e))
          a)
]

receive-IsTypedStore :
    (lookup : ℕ → Option (List ℕ)) (bytes : List ℕ) (s : Store)
    → IsByteDelivery (lookup, bytes)
    → IsTypedStore s
    → IsTypedStore (receive lookup bytes s)
unfolding receive
receive-IsTypedStore lookup bytes s (h, held) t = elim (Bool-cases (length bytes == event_size)) [
  | inl e ↦
      let typed = read_event-IsTypedEvent bytes h in
      rw e (record {
        events = All-append IsTypedEvent s.events _ t.events (typed, tt);
        stacks = keep_stack_typed lookup held _ typed.stack_id s.stacks t.stacks;
      })
  | inr e ↦ rw e t
]

pub receive_all-IsTypedStore :
    (ds : List Delivery) (s : Store)
    → All IsByteDelivery ds
    → IsTypedStore s
    → IsTypedStore (receive_all ds s)
unfolding receive_all
receive_all-IsTypedStore [] s a t = t
receive_all-IsTypedStore ((lookup, bytes) ∷ ds) s a t =
    receive_all-IsTypedStore ds (receive lookup bytes s) a.1
      (receive-IsTypedStore lookup bytes s a.0 t)
