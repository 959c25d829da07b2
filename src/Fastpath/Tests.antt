-- ===== src/Fastpath/Tests.antt =====
-- A memo of three runs.
use native.Mathlib.Omega.{arith}
use fasthack.Prelude.{◌≡◌, ◌↔◌, ◌⊎◌, ◌≤◌, ◌<◌, refl, true, false, List, [], ◌∷◌, All, length}
use fasthack.Text.{codes, text, text_eq, in_set, before}
use fasthack.Dict.{get, put}
use fasthack.Fastpath.{always_cheap, first_word, known_fast, observed, observe}
use fasthack.Fastpath.Memo.{Timing, memo_of, durations, known_fast-memo_iff}

abbrev three_runs : List Timing
three_runs = (codes "ls src", 20) ∷ (codes "make", 900) ∷ (codes "ls src", 30) ∷ []

fast : known_fast (memo_of three_runs) (codes "ls src") 500 ≡ true
unfolding known_fast memo_of observe observed get put text_eq in_set always_cheap first_word before
    text
fast = refl

once : known_fast (memo_of three_runs) (codes "make") 5000 ≡ false
unfolding known_fast memo_of observe observed get put text_eq in_set always_cheap first_word before
    text
once = refl

known_fast-memo_iff_example : (known_fast (memo_of three_runs) (codes "ls src") 500 ≡ true) ↔ (
    (in_set always_cheap (first_word (codes "ls src")) ≡ true)
    ⊎ (2 ≤ length (durations (codes "ls src") three_runs))
      × All (λ d. d < 500) (durations (codes "ls src") three_runs))
known_fast-memo_iff_example = known_fast-memo_iff three_runs (codes "ls src") 500 (omega arith)
