-- ===== src/Collector/Source.antt =====
-- crates/slice-collector/src/lib.rs: `source_entry`, `source_return` and the samples of source mode.
use slice.Base.{
  ℕ, true, false, not, ◌&&◌, Option, none, some, [], ◌∷◌, ◌++◌, ltb, ◌==◌, if◌then◌else◌,
  is_some_and,
}
use slice.Collector.{Correlator, SourceInvocation, PendingSample}
use slice.Data.Maps.{update_or_insert}

-- A source invocation of which nothing has been seen.
abbrev pub unseen : (id tid : ℕ) (function_id start_ns end_ns : Option ℕ) → SourceInvocation
unseen id tid function_id start_ns end_ns = record {
  id = id;
  function_id = function_id;
  tid = tid;
  start_ns = start_ns;
  end_ns = end_ns;
  saw_entry = false;
  saw_return = false;
  valid = true;
  samples = [];
}

-- What `source_entry` does to the invocation.
unfoldable pub enter : (function_id tid timestamp_ns : ℕ) → SourceInvocation → SourceInvocation
enter function_id tid timestamp_ns i =
    if i.saw_entry then record i { valid = false } else record i {
      saw_entry = true;
      function_id = some function_id;
      tid = tid;
      start_ns = some timestamp_ns;
      valid = i.valid && not (is_some_and (λ end_ns. ltb end_ns timestamp_ns) i.end_ns);
    }

-- What `source_return` does to it: the function is kept if one is known.
abbrev pub known_function : Option ℕ → ℕ → ℕ
known_function none function_id = function_id
known_function (some known) function_id = known

unfoldable pub leave : (function_id tid timestamp_ns : ℕ) → SourceInvocation → SourceInvocation
leave function_id tid timestamp_ns i =
    let known = known_function i.function_id function_id in
    record i {
      saw_return = true;
      function_id = some known;
      end_ns = some timestamp_ns;
      valid =
          i.valid
          && (not i.saw_return
              && ((known == function_id && i.tid == tid)
                  && not (is_some_and (λ start_ns. ltb timestamp_ns start_ns) i.start_ns)));
    }

abbrev pub pend : PendingSample → SourceInvocation → SourceInvocation
pend s i = record i { samples = i.samples ++ s ∷ [] }

unfoldable pub source_entry :
    Correlator → (invocation_id function_id tid timestamp_ns : ℕ) → Correlator
source_entry c id function_id tid timestamp_ns = record c {
  source_invocations =
      update_or_insert id (unseen id tid (some function_id) (some timestamp_ns) none)
        (enter function_id tid timestamp_ns) c.source_invocations;
}

unfoldable pub source_return :
    Correlator → (invocation_id function_id tid timestamp_ns : ℕ) → Correlator
source_return c id function_id tid timestamp_ns = record c {
  source_invocations =
      update_or_insert id (unseen id tid (some function_id) none (some timestamp_ns))
        (leave function_id tid timestamp_ns) c.source_invocations;
}

unfoldable pub source_sample : Correlator → ℕ → PendingSample → Correlator
source_sample c id s = record c {
  source_invocations =
      update_or_insert id (unseen id s.tid none none none) (pend s) c.source_invocations;
}
