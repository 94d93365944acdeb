-- ===== src/Core/Validate/Decides.antt =====
-- `validate` as a whole against the specification.
use slice.Base.{
  ℕ, ◌≡◌, ◌↔◌, List, ok, guard→true, >>-eq-ok, >>=-eq-ok, for_each-All, All-for_each, All-map,
  ==_iff,
}
use slice.Core.Profile.{Profile}
use slice.Core.Validate.{validate, unique_ids}
use slice.Core.Validate.Ids.{unique_ids-contains, unique_ids-Nodup, unique_ids-ok}
use slice.Core.Validate.Sound.{
  IsSetOf, check_invocation_sound, check_invocation_complete, check_frame_sound,
  check_frame_complete, check_sample_sound, check_sample_complete, check_quality_sound,
  check_quality_complete,
}
use slice.Core.Validate.Spec.{IsWellFormed, function_ids, thread_ids, invocation_ids, stack_ids}
use slice.Data.Text.{Text, codes}

set_of : (ids : List ℕ) (kind : Text) (s : List ℕ) → unique_ids ids kind ≡ ok s → IsSetOf s ids
set_of ids kind s h x = unique_ids-contains ids kind s x h

module _ (p : Profile) where
  validate_sound : validate p ≡ ok tt → IsWellFormed p
  unfolding validate
  validate_sound h0 =
      let (version, h1) = >>-eq-ok _ _ h0 in
      let (fs, ef, h2) = >>=-eq-ok _ _ h1 in
      let (ts, et, h3) = >>=-eq-ok _ _ h2 in
      let (is, ei, h4) = >>=-eq-ok _ _ h3 in
      let (ss, es, h5) = >>=-eq-ok _ _ h4 in
      let (invocations, h6) = >>-eq-ok _ _ h5 in
      let (frames, h7) = >>-eq-ok _ _ h6 in
      let (samples, quality) = >>-eq-ok _ _ h7 in
      let f = set_of (function_ids p) _ fs ef in
      let n = set_of (invocation_ids p) _ is ei in
      record {
        version = (==_iff p.format_version 1).0 (guard→true _ _ version);
        unique_functions = unique_ids-Nodup (function_ids p) _ fs ef;
        unique_threads = unique_ids-Nodup (thread_ids p) _ ts et;
        unique_invocations = unique_ids-Nodup (invocation_ids p) _ is ei;
        unique_stacks = unique_ids-Nodup (stack_ids p) _ ss es;
        sound_invocations =
            All-map _ _ (check_invocation_sound p fs ts is f (set_of (thread_ids p) _ ts et) n)
              p.invocations (for_each-All _ p.invocations invocations);
        sound_frames =
            All-map _ _
              (λ s h. All-map _ _ (check_frame_sound p fs f) s.frames (for_each-All _ s.frames h))
              p.stacks (for_each-All _ p.stacks frames);
        sound_samples =
            All-map _ _ (check_sample_sound p is ss n (set_of (stack_ids p) _ ss es)) p.samples
              (for_each-All _ p.samples samples);
        sound_quality = check_quality_sound p quality;
      }

  validate_complete : IsWellFormed p → validate p ≡ ok tt
  unfolding validate
  validate_complete w =
      let (fs, ef) = unique_ids-ok (function_ids p) (codes "function") w.unique_functions in
      let (ts, et) = unique_ids-ok (thread_ids p) (codes "thread") w.unique_threads in
      let (is, ei) = unique_ids-ok (invocation_ids p) (codes "invocation") w.unique_invocations in
      let (ss, es) = unique_ids-ok (stack_ids p) (codes "stack") w.unique_stacks in
      let f = set_of (function_ids p) _ fs ef in
      let n = set_of (invocation_ids p) _ is ei in
      rw (
        (==_iff p.format_version 1).1 w.version,
        ef,
        et,
        ei,
        es,
        All-for_each _ p.invocations (
            All-map _ _ (check_invocation_complete p fs ts is f (set_of (thread_ids p) _ ts et) n)
              p.invocations w.sound_invocations),
        All-for_each _ p.stacks (
            All-map _ _
              (λ s h.
                All-for_each _ s.frames (All-map _ _ (check_frame_complete p fs f) s.frames h))
              p.stacks w.sound_frames),
        All-for_each _ p.samples (
            All-map _ _
              (check_sample_complete p is ss n (set_of (stack_ids p) _ ss es) w.unique_invocations)
              p.samples w.sound_samples),
        check_quality_complete p w.sound_quality,
      )

  -- `validate` returns no error exactly when the profile is well formed.
  pub validate-iff-IsWellFormed : (validate p ≡ ok tt) ↔ IsWellFormed p
  validate-iff-IsWellFormed = (validate_sound, validate_complete)
