-- ===== src/RepoCheck/Sources/Word.antt =====
-- tools/repo-check/src/main.rs: a word of a source file, where it stands in the text.
use mathlib.Core.Bool.{false≢true}
use mathlib.Core.Path.{ap₂}
use slice.Base.{
  ℕ, ◌≡◌, refl, Bool, true, false, not, ◌&&◌, ◌||◌, some, List, [], ◌∷◌, any, leb, ◌==◌,
  if◌then◌else◌, Bool-cases, inl, inr, arith, All, ap, sym, ◌∙◌, ==_iff,
}
use slice.Data.Text.{Text, codes, text_eq}
use slice.RepoCheck.Sources.{is_word_character, prepend_first, words_of, mentions_unsafe}

-- A letter of ASCII, a digit or an underscore.
abbrev continues : ℕ → Bool
continues c =
    (leb 48 c && leb c 57) || (leb 65 c && leb c 90) || ((c == 95) || (leb 97 c && leb c 122))

-- Does the text begin with the word, and does the word end there?
abbrev begins_with : (word : Text) → Text → Bool
begins_with [] [] = true
begins_with [] (c ∷ s) = not (continues c)
begins_with (a ∷ word) [] = false
begins_with (a ∷ word) (c ∷ s) = (a == c) && begins_with word s

-- Does the word stand anywhere, not behind such a character? Of the character before the text it is
-- known whether it is one.
abbrev pub has_word : (word : Text) (behind : Bool) → Text → Bool
has_word word behind [] = false
has_word word behind (c ∷ s) =
    (not behind && begins_with word (c ∷ s)) || has_word word (continues c) s

abbrev first_of : List Text → Text
first_of [] = []
first_of (w ∷ ws) = w

abbrev others_of : List Text → List Text
others_of [] = []
others_of (w ∷ ws) = ws

continues_lem : (c : ℕ) → is_word_character c ≡ continues c
continues_lem c = ground arith

first_of-prepend : (c : ℕ) (ws : List Text) → first_of (prepend_first c ws) ≡ c ∷ first_of ws
first_of-prepend c [] = refl
first_of-prepend c (w ∷ ws) = refl

others_of-prepend : (c : ℕ) (ws : List Text) → others_of (prepend_first c ws) ≡ others_of ws
others_of-prepend c [] = refl
others_of-prepend c (w ∷ ws) = refl

-- The first word of a text, and the others.
first-continuing :
    (c : ℕ) (s : Text)
    → continues c ≡ true
    → (first_of (words_of (c ∷ s)) ≡ c ∷ first_of (words_of s))
      × (others_of (words_of (c ∷ s)) ≡ others_of (words_of s))
unfolding words_of
first-continuing c s e =
    let e' : is_word_character c ≡ true = continues_lem c ∙ e in
    (
      ap (λ b. first_of (if b then prepend_first c (words_of s) else [] ∷ words_of s)) e'
          ∙ first_of-prepend c (words_of s),
      ap (λ b. others_of (if b then prepend_first c (words_of s) else [] ∷ words_of s)) e'
          ∙ others_of-prepend c (words_of s),
    )

first-ending : (c : ℕ) (s : Text) → continues c ≡ false → words_of (c ∷ s) ≡ [] ∷ words_of s
unfolding words_of
first-ending c s e =
    ap (λ b. if b then prepend_first c (words_of s) else [] ∷ words_of s) (continues_lem c ∙ e)

begins_with-first :
    (word s : Text)
    → All (λ c. continues c ≡ true) word
    → begins_with word s ≡ text_eq word (first_of (words_of s))
begins_with-first [] [] h = unfold words_of in refl
begins_with-first [] (c ∷ s) h = elim (Bool-cases (continues c)) [
  | inl e ↦ rw (e, (first-continuing c s e).0) refl
  | inr e ↦ rw (e, first-ending c s e) refl
]
begins_with-first (a ∷ word) [] h = unfold words_of in refl
begins_with-first (a ∷ word) (c ∷ s) h = elim (Bool-cases (continues c)) [
  | inl e ↦ rw (first-continuing c s e).0 (ap (λ b. (a == c) && b) (begins_with-first word s h.1))
  | inr e ↦ rw (first-ending c s e) (elim (Bool-cases (a == c)) [
    | inl same ↦
        absurd
          (let eq : a ≡ c = (==_iff a c).0 same in false≢true (sym e ∙ sym (ap continues eq) ∙ h.0))
    | inr other ↦ rw other refl
  ])
]

any-prepend :
    (f : Text → Bool) (c : ℕ) (ws : List Text)
    → any f (prepend_first c ws)
      ≡ (f (first_of (prepend_first c ws)) || any f (others_of (prepend_first c ws)))
any-prepend f c [] = refl
any-prepend f c (w ∷ ws) = refl

any-words_of :
    (f : Text → Bool) (s : Text)
    → any f (words_of s) ≡ (f (first_of (words_of s)) || any f (others_of (words_of s)))
unfolding words_of
any-words_of f [] = refl
any-words_of f (c ∷ s) = elim (Bool-cases (is_word_character c)) [
  | inl e ↦ rw e (any-prepend f c (words_of s))
  | inr e ↦ rw e refl
]

has_word-words :
    (a : ℕ) (word s : Text)
    → All (λ c. continues c ≡ true) (a ∷ word)
    → (has_word (a ∷ word) true s ≡ any (text_eq (a ∷ word)) (others_of (words_of s)))
      × (has_word (a ∷ word) false s ≡ any (text_eq (a ∷ word)) (words_of s))
has_word-words a word [] h = unfold words_of in (refl, refl)
has_word-words a word (c ∷ s) h =
    let (inside, outside) = has_word-words a word s h in
    let begins = begins_with-first (a ∷ word) (c ∷ s) h in
    let whole = any-words_of (text_eq (a ∷ word)) (c ∷ s) in
    let later : has_word (a ∷ word) (continues c) s
        ≡ any (text_eq (a ∷ word)) (others_of (words_of (c ∷ s))) =
      elim (Bool-cases (continues c)) [
        | inl e ↦ rw (e, (first-continuing c s e).1) inside
        | inr e ↦ rw (e, first-ending c s e) outside
      ] in
    (later, ap₂ (λ x y. x || y) begins later ∙ sym whole)

-- A file has the word as a whole exactly where the code finds it among the words.
pub mentions_unsafe-has_word :
    (source : Text) → mentions_unsafe (some source) ≡ has_word (codes "unsafe") false source
mentions_unsafe-has_word source =
    sym
      (has_word-words 117 (codes "nsafe") source
        (refl, (refl, (refl, (refl, (refl, (refl, tt))))))).1
