-- ===== src/Cli/View.antt =====
-- crates/slice-cli/src/main.rs: `view`, between the bytes of the profile and the text of the page.
pub mod Pages
use slice.Base.{
  ℕ, Option, none, some, List, [], ◌∷◌, Result, ok, err, or_fail, map_err, ◌>>=◌, ◌>>◌,
}
use slice.Cli.Arguments.{ArgumentError, parse_threads, parse_time, parse_percentile}
use slice.Core.Envelope.{Codec, ProfileError, from_bytes, capture_bounds}
use slice.Core.Float.{Float, Failure, panic, refused}
use slice.Core.Profile.{Profile, Function, Metric}
use slice.Core.Query.{Query}
use slice.Core.Validate.{ProfileValidationError, validate}
use slice.Data.Text.{Text}
use slice.Render.{Json, Template, RenderError, render_html}

pub record Arguments : Type 0 where
  pub threads : Option Text
  pub time : Option Text
  pub percentile : Text
  pub metric : Metric

pub data ViewError : Type 0 where
  unreadable : ProfileError → ViewError
  validation_failed : ProfileValidationError → ViewError
  no_functions : ViewError
  argument : ArgumentError → ViewError
  render : RenderError → ViewError

-- `value.map(parse).transpose()`.
abbrev pub transpose {ℓ κ μ} :
    {E : Type ℓ} {A : Type κ} {B : Type μ} → (A → Result E B) → Option A → Result E (Option B)
transpose f none = ok none
transpose f (some a) = f a >>= λ b. ok (some b)

abbrev pub first : List Function → Option Function
first [] = none
first (f ∷ fs) = some f

-- The query of the arguments, for the first function of the profile.
unfoldable pub query_of : Profile → Arguments → Function → Result ArgumentError Query
query_of p arguments function = do
  threads ← transpose parse_threads arguments.threads
  time ← transpose (λ value. parse_time value (capture_bounds p.invocations)) arguments.time
  percentile ← parse_percentile arguments.percentile
  ok (record {
    function_id = function.id;
    threads = threads;
    time = time;
    percentile = percentile;
    metric = arguments.metric;
  })

abbrev pub fail_render : Failure RenderError → Failure ViewError
fail_render panic = panic
fail_render (refused e) = refused (render e)

-- `view` after reading the file, up to the page that it writes.
unfoldable pub show :
    (fl : Float) → Json → Template → Profile → Arguments → Result (Failure ViewError) Text
show fl json t p arguments = do
  map_err (λ e. refused (validation_failed e)) (validate p)
  function ← or_fail (first p.functions) (refused no_functions)
  query ← map_err (λ e. refused (argument e)) (query_of p arguments function)
  map_err fail_render (render_html fl json t p query)

unfoldable pub view :
    (fl : Float) → Codec → Json → Template → List ℕ → Arguments → Result (Failure ViewError) Text
view fl codec json t bytes arguments = do
  p ← map_err (λ e. refused (unreadable e)) (from_bytes codec bytes)
  show fl json t p arguments
