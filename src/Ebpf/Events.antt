-- ===== src/Ebpf/Events.antt =====
-- crates/slice-ebpf/src/lib.rs: the record of the ring buffer, `read_event` and `sort_events`. On
-- x86-64 the native byte order is little endian.
pub mod Order
pub mod Wire
use slice.Base.{
  ℕ, ◌+◌, ◌*◌, ◌-◌, ◌^◌, Bool, true, false, ◌&&◌, ◌||◌, Option, none, some, List, [], ◌∷◌, take,
  drop, length, ltb, leb, ◌==◌, if◌then◌else◌,
}
use slice.Data.Sort.{sort}

-- `stack_id` is an `i32`, negative where the kernel has no stack: `none` then.
pub record Event : Type 0 where
  pub kind : ℕ
  pub tid : ℕ
  pub timestamp_ns : ℕ
  pub invocation_id : ℕ
  pub stack_id : Option ℕ
  pub cpu : ℕ
  pub weight_ns : ℕ

-- `u32::from_ne_bytes` and `u64::from_ne_bytes`.
abbrev pub from_bytes : List ℕ → ℕ
from_bytes [] = 0
from_bytes (b ∷ bs) = b + 256 * from_bytes bs

-- `bytes[from..from + count]`.
abbrev pub field_at : ℕ → ℕ → List ℕ → ℕ
field_at from count bytes = from_bytes (take count (drop from bytes))

-- `i32::from_ne_bytes`, of which only the numbers from 0 up are used as an index.
abbrev pub stack_index : ℕ → Option ℕ
stack_index bits = if ltb bits (2 ^ 31) then some bits else none

unfoldable pub read_event : List ℕ → Event
read_event bytes = record {
  kind = field_at 0 4 bytes;
  tid = field_at 4 4 bytes;
  timestamp_ns = field_at 8 8 bytes;
  invocation_id = field_at 16 8 bytes;
  stack_id = stack_index (field_at 24 4 bytes);
  cpu = field_at 28 4 bytes;
  weight_ns = field_at 32 8 bytes;
}

unfoldable pub event_kind_order : ℕ → ℕ
event_kind_order kind =
    if kind == 1
    then 0
    else if kind == 3 || kind == 5
    then 1
    else if kind == 2
    then 2
    else if kind == 4
    then 3
    else 4

-- The comparison of `sort_events`: time, thread, invocation, kind.
unfoldable pub event_leb : Event → Event → Bool
event_leb a b =
    ltb a.timestamp_ns b.timestamp_ns
    || ((a.timestamp_ns == b.timestamp_ns)
        && (ltb a.tid b.tid
            || ((a.tid == b.tid)
                && (ltb a.invocation_id b.invocation_id
                    || ((a.invocation_id == b.invocation_id)
                        && leb (event_kind_order a.kind) (event_kind_order b.kind))))))

unfoldable pub sort_events : List Event → List Event
sort_events events = sort event_leb events
