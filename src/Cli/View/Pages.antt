-- ===== src/Cli/View/Pages.antt =====
-- When `view` writes a page.
use slice.Base.{
  length, ◌≤◌, ◌≡◌, ◌<◌, false, refl, subst, ap, Option, none, some, List, ℕ, ok, Result-cases, inl,
  inr, Result, ok-injective, ◌∙◌,
}
use slice.Cli.Arguments.{parse_threads, parse_time, parse_percentile}
use slice.Cli.Arguments.Laws.{parse_percentile-valid, parse_time-ordered}
use slice.Cli.View.{Arguments, query_of, show, view, first, transpose}
use slice.Core.Envelope.{Codec, from_bytes, capture_bounds}
use slice.Core.Envelope.Laws.{from_bytes-IsWellFormed}
use slice.Core.Float.{Float, IsScaling, exact_limit}
use slice.Core.Profile.{Profile, Function, TimeRange}
use slice.Core.Query.{Query}
use slice.Core.Rank.{is_invalid}
use slice.Core.Validate.Decides.{validate-iff-IsWellFormed}
use slice.Data.Text.{Text}
use slice.Render.{Json, Template, page, script_safe_json}
use slice.Render.Page.{IsSerializing, render_html_total}

-- What the arguments promise to the query.
abbrev pub IsAcceptable : Query → Type 0
IsAcceptable q =
    (is_invalid q.percentile ≡ false)
    × ((time : TimeRange) → q.time ≡ some time → time.from_ns < time.to_ns)

transpose-some {ℓ κ μ} :
    {E : Type ℓ} {A : Type κ} {B : Type μ} (f : A → Result E B) (o : Option A) {b : B}
    → transpose f o ≡ ok (some b)
    → (a : A) × (f a ≡ ok b)
transpose-some f none h = absurd (let e = ok-injective h in cc)
transpose-some f (some a) h = elim (Result-cases (f a)) [
  | inl (c, e) ↦ (a, let h' = rw e at h in let s = ok-injective h' in cc)
  | inr (x, e) ↦ absurd (let h' = rw e at h in cc)
]

module _ (p : Profile) (arguments : Arguments) (function : Function) where
  query_of-IsAcceptable :
      (q : Query)
      → query_of p arguments function ≡ ok q
      → IsAcceptable q × (q.function_id ≡ function.id)
  unfolding query_of
  query_of-IsAcceptable q h =
      let bounds = capture_bounds p.invocations in
      elim (Result-cases (transpose parse_threads arguments.threads)) [
        | inr (x, e1) ↦ absurd (let h' = rw e1 at h in cc)
        | inl (ts, e1) ↦
            elim (Result-cases (transpose (λ value. parse_time value bounds) arguments.time)) [
              | inr (x, e2) ↦ absurd (let h' = rw (e1, e2) at h in cc)
              | inl (tm, e2) ↦ elim (Result-cases (parse_percentile arguments.percentile)) [
                | inr (x, e3) ↦ absurd (let h' = rw (e1, e2, e3) at h in cc)
                | inl (r, e3) ↦
                    let h' = rw (e1, e2, e3) at h in
                    subst (λ q. IsAcceptable q × (q.function_id ≡ function.id)) (ok-injective h')
                      (
                        (
                          parse_percentile-valid arguments.percentile r e3,
                          λ time same.
                              let (value, e) =
                                transpose-some (λ value. parse_time value bounds) arguments.time
                                  (e2 ∙ ap ok same) in
                              parse_time-ordered value bounds time e,
                        ),
                        refl,
                      )
              ]
            ]
      ]

module _ (fl : Float) (codec : Codec) (json : Json) (t : Template) where
  -- Bytes that are read as a profile with a first function and at most 2^53 invocations, and arguments
  -- that parse, have a page: neither validation nor the query nor the rendering refuses them, if `f64`
  -- rounds as IEEE 754 demands and serde_json writes every profile and every query.
  pub view_total :
      IsScaling fl
      → IsSerializing json
      → (bytes : List ℕ) (p : Profile) (arguments : Arguments) (function : Function) (q : Query)
      → from_bytes codec bytes ≡ ok p
      → length p.invocations ≤ exact_limit
      → first p.functions ≡ some function
      → query_of p arguments function ≡ ok q
      → (html : Text) × (view fl codec json t bytes arguments ≡ ok html)
  unfolding view show
  view_total scaling writes bytes p arguments function q read few has asked =
      let w = from_bytes-IsWellFormed codec bytes p read in
      let (acceptable, same) = query_of-IsAcceptable p arguments function q asked in
      let (a, b, ea, eb, run) =
        render_html_total fl json t p q scaling writes w few acceptable.0 acceptable.1 in
      (
        page t (script_safe_json a) (script_safe_json b),
        rw (read, (validate-iff-IsWellFormed p).1 w, has, asked, run) refl,
      )
