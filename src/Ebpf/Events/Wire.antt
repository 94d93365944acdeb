-- ===== src/Ebpf/Events/Wire.antt =====
-- crates/slice-ebpf/src/lib.rs: `read_event` against the layout of `struct Event`, which is
-- `repr(C)`: seven little-endian fields, without padding.
use slice.Base.{ℕ, zero, suc, ◌*◌, ◌/◌, ◌%◌, ◌^◌, ◌<◌, ◌≡◌, refl, List, [], ◌∷◌, ◌++◌, arith}
use slice.Ebpf.Events.{from_bytes, read_event, stack_index}

-- The `count` low bytes of a number, the lowest first.
abbrev pub bytes_of : (count n : ℕ) → List ℕ
bytes_of zero n = []
bytes_of (suc count) n = n % 256 ∷ bytes_of count (n / 256)

-- What a number of `count` bytes stays below.
abbrev pub byte_limit : ℕ → ℕ
byte_limit zero = 1
byte_limit (suc count) = 256 * byte_limit count

from_bytes-bytes_of : (count n : ℕ) → n < byte_limit count → from_bytes (bytes_of count n) ≡ n
from_bytes-bytes_of zero n h = omega arith
from_bytes-bytes_of (suc count) n h =
    omega (arith, from_bytes-bytes_of count (n / 256) (omega arith))

-- The record as the kernel side lays it out; `stack_bits` are the bits of the signed stack id.
abbrev pub layout : (kind tid timestamp_ns invocation_id stack_bits cpu weight_ns : ℕ) → List ℕ
layout kind tid timestamp_ns invocation_id stack_bits cpu weight_ns =
    bytes_of 4 kind
    ++ bytes_of 4 tid
    ++ bytes_of 8 timestamp_ns
    ++ bytes_of 8 invocation_id
    ++ bytes_of 4 stack_bits
    ++ bytes_of 4 cpu
    ++ bytes_of 8 weight_ns

-- `read_event` returns the fields that the layout was made of, each within its width; a stack id
-- with the sign bit set is none.
pub read_event-layout :
    (kind tid timestamp_ns invocation_id stack_bits cpu weight_ns : ℕ)
    → kind < 2 ^ 32
    → tid < 2 ^ 32
    → timestamp_ns < 2 ^ 64
    → invocation_id < 2 ^ 64
    → stack_bits < 2 ^ 32
    → cpu < 2 ^ 32
    → weight_ns < 2 ^ 64
    → read_event (layout kind tid timestamp_ns invocation_id stack_bits cpu weight_ns) ≡ record {
      kind = kind;
      tid = tid;
      timestamp_ns = timestamp_ns;
      invocation_id = invocation_id;
      stack_id = stack_index stack_bits;
      cpu = cpu;
      weight_ns = weight_ns;
    }
unfolding read_event
read_event-layout kind tid timestamp_ns invocation_id stack_bits cpu weight_ns h1 h2 h3 h4 h5 h6
      h7 =
    rw
      (
        from_bytes-bytes_of 4 kind (omega arith),
        from_bytes-bytes_of 4 tid (omega arith),
        from_bytes-bytes_of 8 timestamp_ns (omega arith),
        from_bytes-bytes_of 8 invocation_id (omega arith),
        from_bytes-bytes_of 4 stack_bits (omega arith),
        from_bytes-bytes_of 4 cpu (omega arith),
        from_bytes-bytes_of 8 weight_ns (omega arith),
      )
      refl
