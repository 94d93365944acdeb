-- ===== src/Ebpf/Replay/Threads.antt =====
-- crates/slice-ebpf/src/lib.rs: what `rebuild_threads` lists.
use slice.Base.{◌≡◌, refl, ap, ◌↔◌, List, [], ◌∷◌, ◌++◌, map, Mem, Nodup, ℕ}
use slice.Core.Profile.{Profile, Thread}
use slice.Core.Validate.Spec.{thread_ids}
use slice.Data.Maps.{get}
use slice.Data.Sort.{ascending}
use slice.Data.Sort.Ascending.{ascending-Nodup}
use slice.Data.Text.{Text}
use slice.Ebpf.Replay.{rebuild_threads}

map_tid :
    (names : List (ℕ × Text)) (tids : List ℕ)
    → map (λ (t : Thread). t.tid) (map (λ tid. record { tid = tid; name = get tid names }) tids)
      ≡ tids
map_tid names [] = refl
map_tid names (tid ∷ tids) = ap (λ ts. tid ∷ ts) (map_tid names tids)

-- After `rebuild_threads` the profile lists the thread of every invocation and of every sample, no
-- other thread, and each of them once.
pub rebuild_threads-Nodup :
    (p : Profile) (names : List (ℕ × Text))
    → Nodup (thread_ids (rebuild_threads p names))
      × ((tid : ℕ)
          → Mem tid (thread_ids (rebuild_threads p names))
            ↔ Mem tid (map (λ i. i.tid) p.invocations ++ map (λ s. s.tid) p.samples))
unfolding rebuild_threads
rebuild_threads-Nodup p names =
    let tids = map (λ i. i.tid) p.invocations ++ map (λ s. s.tid) p.samples in
    rw (map_tid names (ascending tids)) (ascending-Nodup tids)
