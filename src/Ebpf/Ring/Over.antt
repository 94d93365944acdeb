-- ===== src/Ebpf/Ring/Over.antt =====
-- When the loop over the ring buffer is over.
use slice.Base.{
  ◌≡◌, refl, true, none, some, List, [], ◌∷◌, ◌++◌, any, find, ◌⊎◌, inl, inr, Bool-cases,
}
use slice.Data.Numerals.{starts_with, lines}
use slice.Data.Text.{Text, codes}
use slice.Ebpf.Process.{process_exists}
use slice.Ebpf.Resolver.Load.{words}
use slice.Ebpf.Ring.Laws.{is_last}
use slice.Ebpf.Ring.{Round}

-- The first line with the state has `Z` as its second word.
pub record IsZombie (status : Text) : Type 0 where
  pub line : Text
  pub shown : find (λ l. starts_with (codes "State:") l) (lines status) ≡ some line
  pub label : Text
  pub more : List Text
  pub state : words line ≡ label ∷ codes "Z" ∷ more

-- A stop is requested, or the target has no status, or it is a zombie.
abbrev pub IsOver : Round → Type 0
IsOver r =
    (r.stop_before ≡ true)
    ⊎ ((r.status ≡ none) ⊎ ((status : Text) × (r.status ≡ some status) × IsZombie status))

pub IsOver-is_last : (r : Round) → IsOver r → is_last r ≡ true
unfolding process_exists
IsOver-is_last r (inl stop) = elim (Bool-cases (process_exists r.status)) [
  | inl e ↦ rw (e, stop) refl
  | inr e ↦ rw e refl
]
IsOver-is_last r (inr (inl gone)) = rw (gone, process_exists) refl
IsOver-is_last r (inr (inr (status, known, zombie))) =
    rw (known, process_exists, zombie.shown, zombie.state) refl

pub any-last :
    (before after : List Round) (r : Round)
    → is_last r ≡ true
    → any is_last (before ++ r ∷ after) ≡ true
any-last [] after r h = rw h refl
any-last (b ∷ before) after r h = elim (Bool-cases (is_last b)) [
  | inl e ↦ rw e refl
  | inr e ↦ rw e (any-last before after r h)
]
