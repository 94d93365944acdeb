-- ===== src/Tests/Files.antt =====
-- The file format and the commands that read it, at the profile with two threads.
use native.Mathlib.Decide.{ℕ_discrete}
use slice.Base.{arith, ap, sym, ℕ, ◌≡◌, ◌↔◌, refl, true, Option, none, some, List, [], ◌∷◌, ok, err}
use slice.Cli.Arguments.{
  parse_percentile, parse_threads, parse_duration_ns, parse_with, parse_parts, in_order,
  percentile_out_of_order,
}
use slice.Cli.Discover.{discover}
use slice.Cli.Discover.Report.{IsReport, discover-IsReport}
use slice.Cli.Summary.{Requirements, check_profile}
use slice.Cli.Summary.Laws.{Meets, check_profile_iff}
use slice.Cli.View.{Arguments, query_of, view}
use slice.Cli.View.Pages.{view_total}
use slice.Core.Envelope.{Codec, IsFaithful, to_bytes, from_bytes, file_magic}
use slice.Core.Envelope.Laws.{from_bytes-IsWellFormed, from_bytes-to_bytes}
use slice.Core.Profile.{Profile, Metric}
use slice.Core.Validate.Spec.{IsWellFormed}
use slice.Data.Numerals.{split_once, split, trim, strip_suffix, parse_unsigned, parse_digits}
use slice.Data.Text.{Text, codes}
use slice.Render.{Json, Template, render_html, script_safe_json, page, from_query}
use slice.Render.Escape.{Avoids, script_safe_json-Avoids}
use slice.Render.Page.{IsSerializing, render_html_total}
use slice.Tests.Data.{two_threads, query, hundredths, hundredths-IsScaling, work}
use slice.Tests.Profiles.{two_threads-IsWellFormed}

profile_discrete : Discrete Profile
profile_discrete = hlevel ℕ_discrete

abbrev if_same : {p : Profile} → Dec (p ≡ two_threads) → Option (List ℕ)
if_same (yes e) = some []
if_same (no n) = none

if_same-some :
    {p : Profile} (d : Dec (p ≡ two_threads)) (json : List ℕ)
    → if_same d ≡ some json
    → p ≡ two_threads
if_same-some (yes e) json h = e
if_same-some (no n) json h = cc

-- Libraries that write one profile, as the empty text, and compress nothing.
abbrev one_profile : Codec
one_profile = record {
  to_vec = λ p. if_same (profile_discrete p two_threads);
  from_slice = λ bytes. some two_threads;
  encode_all = λ bytes. some bytes;
  decode_all = λ bytes. some bytes;
}

one_profile-IsFaithful : IsFaithful one_profile
one_profile-IsFaithful = record {
  reads_json = λ p json h. ap some (sym (if_same-some (profile_discrete p two_threads) json h));
  decompresses = λ bytes compressed h. sym h;
}

two_threads_written : to_bytes one_profile two_threads ≡ ok file_magic
unfolding to_bytes profile_discrete ℕ_discrete
two_threads_written = refl

from_bytes-to_bytes_example : from_bytes one_profile file_magic ≡ ok two_threads
from_bytes-to_bytes_example =
    from_bytes-to_bytes one_profile one_profile-IsFaithful two_threads file_magic
      two_threads-IsWellFormed two_threads_written

from_bytes-IsWellFormed_example : IsWellFormed two_threads
from_bytes-IsWellFormed_example =
    from_bytes-IsWellFormed one_profile file_magic two_threads from_bytes-to_bytes_example

script_safe_json-Avoids_example :
    Avoids 60 (script_safe_json (codes "</script>"))
    × Avoids 62 (script_safe_json (codes "</script>"))
    × Avoids 38 (script_safe_json (codes "</script>"))
script_safe_json-Avoids_example = script_safe_json-Avoids (codes "</script>")

abbrev json : Json
json = record { profile = λ p. some (codes "{}"); query = λ q. some (codes "{}") }

json-IsSerializing : IsSerializing json
json-IsSerializing = record {
  writes_profile = λ p. (codes "{}", refl);
  writes_query = λ q. (codes "{}", refl);
}

abbrev template : Template
template = record {
  head = codes "<style>";
  body = codes "</style>";
  between = [];
  script = codes "<script>";
  tail = codes "</script>";
  css = [];
  javascript = [];
}

render_html_total_example :
    (profile_json initial_json : Text) × (json.profile two_threads ≡ some profile_json)
    × (json.query (from_query (query 0 100 Metric.wall)) ≡ some initial_json)
    × (render_html hundredths json template two_threads (query 0 100 Metric.wall)
        ≡ ok (page template (script_safe_json profile_json) (script_safe_json initial_json)))
render_html_total_example =
    render_html_total hundredths json template two_threads (query 0 100 Metric.wall)
      hundredths-IsScaling json-IsSerializing two_threads-IsWellFormed (omega arith) refl
      (λ t e. cc)

-- `view` with `--percentile 0:100` and no thread or time.
abbrev plain : Arguments
plain = record { threads = none; time = none; percentile = codes "0:100"; metric = Metric.wall }

plain_query : query_of two_threads plain work ≡ ok (query 0 100 Metric.wall)
unfolding query_of parse_percentile split_once parse_unsigned parse_digits in_order
plain_query = refl

view_total_example :
    (html : Text) × (view hundredths one_profile json template file_magic plain ≡ ok html)
view_total_example =
    view_total hundredths one_profile json template hundredths-IsScaling json-IsSerializing
      file_magic two_threads plain work (query 0 100 Metric.wall) from_bytes-to_bytes_example
      (omega arith) refl plain_query

abbrev all_required : Requirements
all_required = record { require_complete = true; require_samples = true; require_off_cpu = true }

check_profile_iff_example :
    (check_profile two_threads all_required ≡ ok tt)
    ↔ (IsWellFormed two_threads × Meets two_threads all_required)
check_profile_iff_example = check_profile_iff two_threads all_required

discover-IsReport_example : IsReport two_threads Metric.wall (discover two_threads Metric.wall)
discover-IsReport_example = discover-IsReport two_threads Metric.wall

percentile_parsed : parse_percentile (codes "99:100") ≡ ok (record { low = 99; high = 100 })
unfolding parse_percentile split_once parse_unsigned parse_digits in_order
percentile_parsed = refl

percentile_refused : parse_percentile (codes "100:99") ≡ err percentile_out_of_order
unfolding parse_percentile split_once parse_unsigned parse_digits in_order
percentile_refused = refl

duration_parsed : parse_duration_ns (codes "2ms") ≡ ok 2_000_000
unfolding parse_duration_ns parse_with strip_suffix parse_unsigned parse_digits trim
duration_parsed = refl

threads_parsed : parse_threads (codes "10, 11") ≡ ok (10 ∷ 11 ∷ [])
unfolding parse_threads parse_parts split trim parse_unsigned parse_digits
threads_parsed = refl
