-- ===== src/Render.antt =====
-- crates/slice-render/src/lib.rs: `InitialQuery`, `script_safe_json` and `render_html`. The JSON text
-- of serde_json and the constant text of the page are parameters.
pub mod Escape
pub mod Page
use slice.Base.{
  ℕ, Option, none, some, List, [], ◌∷◌, ◌++◌, ◌==◌, if◌then◌else◌, Result, ok, err, or_fail,
  map_err, ◌>>=◌, ◌>>◌,
}
use slice.Core.Float.{Float, Failure, panic, refused}
use slice.Core.Profile.{Profile, TimeRange, Metric}
use slice.Core.Query.{Query, QueryError, QueryResult, execute_query}
use slice.Core.Rank.{PercentileRange}
use slice.Core.Validate.{ProfileValidationError, validate}
use slice.Data.Sort.{ascending}
use slice.Data.Text.{Text, codes}

pub record InitialQuery : Type 0 where
  pub function_id : ℕ
  pub threads : Option (List ℕ)
  pub time : Option TimeRange
  pub percentile : PercentileRange
  pub metric : Metric

-- The threads are a set, whose elements come in ascending order.
abbrev pub listed : Option (List ℕ) → Option (List ℕ)
listed none = none
listed (some threads) = some (ascending threads)

-- `From<&Query> for InitialQuery`.
abbrev pub from_query : Query → InitialQuery
from_query q = record {
  function_id = q.function_id;
  threads = listed q.threads;
  time = q.time;
  percentile = q.percentile;
  metric = q.metric;
}

pub data RenderError : Type 0 where
  invalid_profile : ProfileValidationError → RenderError
  invalid_query : QueryError → RenderError
  serialization : RenderError

-- `serde_json::to_string` for the two values of the page.
pub record Json : Type 0 where
  pub profile : Profile → Option Text
  pub query : InitialQuery → Option Text

-- The constant text: the template of the page in its five pieces, the style and the script.
pub record Template : Type 0 where
  pub head : Text
  pub body : Text
  pub between : Text
  pub script : Text
  pub tail : Text
  pub css : Text
  pub javascript : Text

-- `replace` of a character by a text.
unfoldable pub replace : ℕ → Text → Text → Text
replace c by [] = []
replace c by (d ∷ s) = let rest = replace c by s in if d == c then by ++ rest else d ∷ rest

unfoldable pub script_safe_json : Text → Text
script_safe_json s =
    replace 62 (codes "\\u003e") (replace 60 (codes "\\u003c") (replace 38 (codes "\\u0026") s))

abbrev pub fail_query : Failure QueryError → Failure RenderError
fail_query panic = panic
fail_query (refused e) = refused (invalid_query e)

-- The page, from the two JSON texts.
unfoldable pub page : Template → (profile_json initial_json : Text) → Text
page t profile_json initial_json =
    t.head ++ t.css ++ t.body ++ profile_json ++ t.between ++ initial_json ++ t.script
    ++ t.javascript ++ t.tail

-- The part of `render_html` after its two checks.
unfoldable pub serialize : Json → Template → Profile → Query → Result (Failure RenderError) Text
serialize json t p q = do
  profile_json ← or_fail (json.profile p) (refused serialization)
  initial_json ← or_fail (json.query (from_query q)) (refused serialization)
  ok (page t (script_safe_json profile_json) (script_safe_json initial_json))

unfoldable pub render_html :
    (fl : Float) → Json → Template → Profile → Query → Result (Failure RenderError) Text
render_html fl json t p q = do
  map_err (λ e. refused (invalid_profile e)) (validate p)
  result ← map_err fail_query (execute_query fl p q)
  serialize json t p q
