-- ===== src/Render/Escape.antt =====
-- crates/slice-render/src/lib.rs: the escapes of `script_safe_json`.
use slice.Base.{ℕ, ◌≡◌, refl, false, [], ◌∷◌, All, All-append, ◌==◌, Bool-cases, inl, inr}
use slice.Data.Text.{Text, codes}
use slice.Render.{replace, script_safe_json}

-- A text without the character `c`.
abbrev pub Avoids : ℕ → Text → Type 0
Avoids c = All λ d. d == c ≡ false

-- What replaces a character may not bring another one in.
replace-Avoids : (c d : ℕ) (by s : Text) → Avoids d by → Avoids d s → Avoids d (replace c by s)
unfolding replace
replace-Avoids c d by [] clean a = tt
replace-Avoids c d by (e ∷ s) clean a = elim (Bool-cases (e == c)) [
  | inl hit ↦ rw hit (All-append _ by (replace c by s) clean (replace-Avoids c d by s clean a.1))
  | inr miss ↦ rw miss (a.0, replace-Avoids c d by s clean a.1)
]

replace-removes : (c : ℕ) (by s : Text) → Avoids c by → Avoids c (replace c by s)
unfolding replace
replace-removes c by [] clean = tt
replace-removes c by (e ∷ s) clean = elim (Bool-cases (e == c)) [
  | inl hit ↦ rw hit (All-append _ by (replace c by s) clean (replace-removes c by s clean))
  | inr miss ↦ rw miss (miss, replace-removes c by s clean)
]

-- The JSON on the page has no `<`, `>` or `&`, so that no value in it can close the script element.
pub script_safe_json-Avoids :
    (s : Text)
    → Avoids 60 (script_safe_json s)
      × Avoids 62 (script_safe_json s)
      × Avoids 38 (script_safe_json s)
unfolding script_safe_json
script_safe_json-Avoids s =
    let amp = replace 38 (codes "\\u0026") s in
    let lt = replace 60 (codes "\\u003c") amp in
    (
      replace-Avoids 62 60 _ lt (refl, (refl, (refl, (refl, (refl, (refl, tt))))))
          (replace-removes 60 _ amp (refl, (refl, (refl, (refl, (refl, (refl, tt))))))),
      replace-removes 62 _ lt (refl, (refl, (refl, (refl, (refl, (refl, tt)))))),
      replace-Avoids 62 38 _ lt (refl, (refl, (refl, (refl, (refl, (refl, tt))))))
          (replace-Avoids 60 38 _ amp (refl, (refl, (refl, (refl, (refl, (refl, tt))))))
            (replace-removes 38 _ s (refl, (refl, (refl, (refl, (refl, (refl, tt)))))))),
    )
