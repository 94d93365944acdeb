-- ===== src/Cli/Write/ReadBack.antt =====
-- From the records of the ring buffer to the output file of `slice profile`, and back from the file.
use mathlib.Core.List.{Perm}
use slice.Base.{ℕ, ◌<◌, ◌≡◌, sym, subst, some, List, All, length, ok}
use slice.Cli.Write.Atomic.{write_profile_atomically-IsAtomic}
use slice.Cli.Write.{Files, Outcomes, write_profile_atomically}
use slice.Collector.{SourceInvocation, ActiveInvocation}
use slice.Core.Envelope.Laws.{from_bytes-to_bytes}
use slice.Core.Envelope.{Codec, IsFaithful, from_bytes}
use slice.Data.Text.{Text}
use slice.Data.Words.{u32_max}
use slice.Ebpf.Replay.Consistent.{IsConsistent}
use slice.Ebpf.Replay.Sound.{replay-IsWellFormed}
use slice.Ebpf.Replay.{Captured, replay}
use slice.Capture.{CaptureRequest}
use slice.Core.Profile.{Profile}
use slice.Core.Validate.Spec.{IsWellFormed}
use slice.Ebpf.Attach.{Kernel}
use slice.Ebpf.Capture.Laws.{capture_pid-replay}
use slice.Ebpf.Capture.Polls.{delivered}
use slice.Ebpf.Capture.{World, captured, capture_pid}
use slice.Ebpf.Ring.Laws.{read_all, receive_all-events}
use slice.Ebpf.Ring.{no_store, receive_all}

-- What is written of a well-formed profile is read back.
written-read :
    (codec : Codec)
    → IsFaithful codec
    → (p : Profile) → IsWellFormed p
    → (o : Outcomes) (name process_id : Text) (files : Files)
    → (write_profile_atomically codec o (some name) process_id p files).1 ≡ ok tt
    → (bytes : List ℕ) × ((write_profile_atomically codec o (some name) process_id p files).0 name
        ≡ some bytes)
      × (from_bytes codec bytes ≡ ok p)
written-read codec faithful p sound o name process_id files h =
    let atomic = write_profile_atomically-IsAtomic codec o name process_id p files in
    let (bytes, encoded, kept, gone) = atomic.replaced h in
    (bytes, kept, from_bytes-to_bytes codec faithful p bytes sound encoded)

module _ (codec : Codec) (faithful : IsFaithful codec)
    (drain : List SourceInvocation → List SourceInvocation)
    (drain-Perm : (is : List SourceInvocation) → Perm (drain is) is)
    (iterate : List ActiveInvocation → List ActiveInvocation)
    (iterate-Perm : (as' : List ActiveInvocation) → Perm (iterate as') as') (tid_of border : ℕ → ℕ)
    (o : Outcomes) (name process_id : Text) (files : Files) where
  -- What is written of the replay of consistent records is read back.
  pub written-from_bytes :
      (c : Captured)
      → All (IsConsistent tid_of border) c.events
      → length c.events < u32_max
      → (write_profile_atomically codec o (some name) process_id (replay drain iterate c) files).1
        ≡ ok tt
      → (bytes : List ℕ) × ((write_profile_atomically codec o
              (some name)
              process_id
              (replay drain iterate c)
              files).0
            name
          ≡ some bytes)
        × (from_bytes codec bytes ≡ ok (replay drain iterate c))
  written-from_bytes c consistent few h =
      written-read codec faithful (replay drain iterate c)
        (replay-IsWellFormed drain drain-Perm iterate iterate-Perm c tid_of border consistent few) o
        name process_id files h

  -- If a capture returns a profile, and the records of the right size that were delivered are
  -- consistent and fewer than 2^32 - 1, and the profile is written without an error, then the bytes
  -- in the output file are read back as that profile: validation does not refuse what was captured.
  -- The libraries are to read back what they wrote, and the hash maps to give each entry once.
  pub captured-from_bytes :
      (k : Kernel) (w : World) (request : CaptureRequest) (p : Profile)
      → (capture_pid drain iterate k w request).outcome ≡ some (ok p)
      → All (IsConsistent tid_of border) (read_all (delivered w))
      → length (read_all (delivered w)) < u32_max
      → (write_profile_atomically codec o (some name) process_id p files).1 ≡ ok tt
      → (bytes : List ℕ) × ((write_profile_atomically codec o (some name) process_id p files).0 name
          ≡ some bytes)
        × (from_bytes codec bytes ≡ ok p)
  unfolding captured
  captured-from_bytes k w request p returned consistent few h =
      let (resolver, attached, same) = capture_pid-replay drain iterate k w request p returned in
      let kept = receive_all-events (delivered w) no_store in
      let c = captured w request resolver (receive_all (delivered w) no_store) in
      let sound : IsWellFormed (replay drain iterate c) =
        replay-IsWellFormed drain drain-Perm iterate iterate-Perm c tid_of border
          (rw kept consistent) (rw kept few) in
      written-read codec faithful p (subst IsWellFormed (sym same) sound) o name process_id files h
