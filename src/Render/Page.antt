-- ===== src/Render/Page.antt =====
-- crates/slice-render/src/lib.rs: when `render_html` returns a page.
use slice.Base.{length, ◌≤◌, ◌≡◌, ◌<◌, false, refl, some, ok}
use slice.Core.Float.{Float, IsScaling, exact_limit}
use slice.Core.Profile.{Profile, TimeRange}
use slice.Core.Query.{Query}
use slice.Core.Query.Failures.{execute_query_total}
use slice.Core.Rank.{is_invalid}
use slice.Core.Validate.Decides.{validate-iff-IsWellFormed}
use slice.Core.Validate.Spec.{IsWellFormed}
use slice.Data.Text.{Text}
use slice.Render.{
  Json, Template, render_html, serialize, script_safe_json, page, from_query, InitialQuery,
}

-- What serde_json documents for these values, whose keys are all text: it has a text for each.
pub record IsSerializing (json : Json) : Type 0 where
  pub writes_profile : (p : Profile) → (s : Text) × (json.profile p ≡ some s)
  pub writes_query : (q : InitialQuery) → (s : Text) × (json.query q ≡ some s)

module _ (fl : Float) (json : Json) (t : Template) (p : Profile) (q : Query) where
  -- A well-formed profile of at most 2^53 invocations and a query with a valid percentile range and a
  -- valid time range have a page, which holds the escaped JSON of the profile and of the query, if
  -- `f64` rounds as IEEE 754 demands and serde_json writes every profile and every query.
  pub render_html_total :
      IsScaling fl
      → IsSerializing json
      → IsWellFormed p
      → length p.invocations ≤ exact_limit
      → is_invalid q.percentile ≡ false
      → ((time : TimeRange) → q.time ≡ some time → time.from_ns < time.to_ns)
      → (profile_json initial_json : Text) × (json.profile p ≡ some profile_json)
        × (json.query (from_query q) ≡ some initial_json)
        × (render_html fl json t p q
            ≡ ok (page t (script_safe_json profile_json) (script_safe_json initial_json)))
  unfolding render_html serialize
  render_html_total scaling writes w few valid ordered =
      let (r, run) = execute_query_total fl scaling p q w few valid ordered in
      let (a, ea) = writes.writes_profile p in
      let (b, eb) = writes.writes_query (from_query q) in
      (a, b, ea, eb, rw ((validate-iff-IsWellFormed p).1 w, run, ea, eb) refl)
