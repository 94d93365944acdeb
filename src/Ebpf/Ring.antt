-- ===== src/Ebpf/Ring.antt =====
-- crates/slice-ebpf/src/lib.rs: the callback of the ring buffer, and the loop that polls it. The
-- contents of the BPF map of stacks are a parameter, since they change while the target runs.
pub mod Laws
pub mod Over
pub mod Widths
use slice.Base.{
  ℕ, suc, zero, ◌+◌, ◌^◌, Bool, true, false, not, ◌&&◌, Option, none, some, List, [], ◌∷◌, ◌++◌,
  drop, take, length, map, select, ◌==◌, if◌then◌else◌, Result, ok, err, ◌>>=◌, leb,
}
use slice.Data.Maps.{insert}
use slice.Data.Text.{Text}
use slice.Ebpf.Events.{Event, read_event, from_bytes}
use slice.Ebpf.Host.{poll_ring}
use slice.Ebpf.Process.{process_exists}

-- What the two shared stores hold.
pub record Store : Type 0 where
  pub stacks : List (ℕ × List ℕ)
  pub events : List Event

abbrev pub no_store : Store
no_store = record { stacks = []; events = [] }

-- `chunks_exact(8)` read as addresses, up to the first zero.
unfoldable pub addresses : List ℕ → List ℕ
addresses (a ∷ b ∷ c ∷ d ∷ e ∷ f ∷ g ∷ h ∷ rest) =
    let address = from_bytes (a ∷ b ∷ c ∷ d ∷ e ∷ f ∷ g ∷ h ∷ []) in
    let more = addresses rest in if address == 0 then [] else address ∷ more
addresses _ = []

abbrev pub event_size : ℕ
event_size = 40

-- The stack of a record, if it has one and the map still holds it.
unfoldable pub keep_stack :
    (lookup : ℕ → Option (List ℕ)) → Option ℕ → List (ℕ × List ℕ) → List (ℕ × List ℕ)
keep_stack lookup none stacks = stacks
keep_stack lookup (some id) stacks = elim (lookup id) [
  | none ↦ stacks
  | some raw ↦ insert id (addresses raw) stacks
]

-- One call of the callback.
unfoldable pub receive : (lookup : ℕ → Option (List ℕ)) → List ℕ → Store → Store
receive lookup bytes s =
    if length bytes == event_size
    then record {
      stacks = keep_stack lookup (read_event bytes).stack_id s.stacks;
      events = s.events ++ read_event bytes ∷ [];
    }
    else s

-- The records that one poll delivers, each with the map of stacks at that time.
unfoldable pub receive_all : List ((ℕ → Option (List ℕ)) × List ℕ) → Store → Store
receive_all [] s = s
receive_all ((lookup, bytes) ∷ rest) s = receive_all rest (receive lookup bytes s)

-- What one round of the loop meets: the status of the target, whether a stop is requested before and
-- after the poll, the records that the poll delivers, and how it ends.
pub record Round : Type 0 where
  pub status : Option Text
  pub stop_before : Bool
  pub delivered : List ((ℕ → Option (List ℕ)) × List ℕ)
  pub polled : Result Text (Unit {0})
  pub stop_after : Bool

-- The loop while the target lives: `none` where the rounds given are too few for it to end.
unfoldable pub watch : List Round → Store → Option (Result Text Store)
watch [] s = none
watch (r ∷ rounds) s =
    let s' = receive_all r.delivered s in
    let rest = watch rounds s' in
    if not (process_exists r.status && not r.stop_before)
    then some (ok s)
    else elim (poll_ring r.polled r.stop_after) [
      | err message ↦ some (err message)
      | ok false ↦ some (ok s')
      | ok true ↦ rest
    ]

-- The three polls before the links are detached.
unfoldable pub drain_ring : List Round → Store → Result Text Store
drain_ring [] s = ok s
drain_ring (r ∷ rounds) s =
    let s' = receive_all r.delivered s in
    let rest = drain_ring rounds s' in
    elim (poll_ring r.polled r.stop_after) [
      | err message ↦ err message
      | ok false ↦ ok s'
      | ok true ↦ rest
    ]
