-- ===== src/Fastpath/Memo.antt =====
-- internal/hp/fastpath.go: which commands the memo lets through.
use fasthack.Prelude.{
  ℕ, ◌≤◌, ◌<◌, ◌≡◌, ◌↔◌, ◌⊎◌, refl, ap, inl, inr, true, false, Option, none, some, List, [], ◌∷◌,
  arith, Bool-cases, if◌then◌else◌, ltb, ◌==◌, length, All,
}
use fasthack.Text.{Text, text_eq, in_set}
use fasthack.Text.Laws.{text_eq_sound}
use fasthack.Dict.{get}
use fasthack.Dict.Laws.{get-put}
use fasthack.Fastpath.{
  FastpathEntry, Fastpath, always_cheap, first_word, is_fast, known_fast, or_zero, observed,
  observe,
}

-- One run: the command, in its normal form, and how long it took.
abbrev pub Timing : Type 0
Timing = Text × ℕ

-- The memo after some runs, the last one first.
unfoldable pub memo_of : List Timing → Fastpath
memo_of [] = []
memo_of ((cmd, dur) ∷ runs) = observe (memo_of runs) cmd dur

-- The durations of the runs of one command.
unfoldable pub durations : Text → List Timing → List ℕ
durations cmd [] = []
durations cmd ((other, dur) ∷ runs) =
    let later = durations cmd runs in if text_eq other cmd then dur ∷ later else later

unfoldable pub longest : List ℕ → ℕ
longest [] = 0
longest (d ∷ ds) = if ltb (longest ds) d then d else longest ds

-- The entry that stands for the durations.
abbrev entry_of : List ℕ → FastpathEntry
entry_of ds = record { max_ms = longest ds; n = length ds }

no_entry : (cmd : Text) → or_zero (get [] cmd) ≡ entry_of []
unfolding get longest
no_entry cmd = refl

one_more : (ds : List ℕ) (dur : ℕ) → observed (entry_of ds) dur ≡ entry_of (dur ∷ ds)
unfolding observed longest
one_more ds dur =
    ap (λ k. record { max_ms = if ltb (longest ds) dur then dur else longest ds; n = k })
      (omega arith)

memo_entry :
    (cmd : Text) (runs : List Timing)
    → or_zero (get (memo_of runs) cmd) ≡ entry_of (durations cmd runs)
unfolding memo_of durations observe
memo_entry cmd [] = no_entry cmd
memo_entry cmd ((other, dur) ∷ runs) = elim (Bool-cases (text_eq other cmd)) [
  | inr e ↦ rw (get-put, e) (memo_entry cmd runs)
  | inl e ↦
      rw (get-put, e, text_eq_sound other cmd e, memo_entry cmd runs)
        (one_more (durations cmd runs) dur)
]

-- The longest of some durations is below the floor exactly if all are.
longest-All : (ds : List ℕ) (floor : ℕ) → 0 < floor → (longest ds < floor) ↔ All (λ d. d < floor) ds
unfolding longest
longest-All [] floor z = (λ h. tt, λ h. z)
longest-All (d ∷ ds) floor z =
    let (down, up) = longest-All ds floor z in
    (λ h. (ground arith, down (ground arith)), λ h. ground (arith, h.0, up h.1))

fast_entry :
    (o : Option FastpathEntry) (ds : List ℕ) (floor : ℕ)
    → or_zero o ≡ entry_of ds
    → (is_fast floor o ≡ true) ↔ ((2 ≤ length ds) × (longest ds < floor))
fast_entry none ds floor e =
    let n : 0 ≡ length ds = ap (λ (x : FastpathEntry). x.n) e in
    (λ h. cc h, λ h. absurd (omega (arith, n, h.0)))
fast_entry (some x) ds floor e =
    let n : x.n ≡ length ds = ap (λ (y : FastpathEntry). y.n) e in
    let m : x.max_ms ≡ longest ds = ap (λ (y : FastpathEntry). y.max_ms) e in
    (λ h. ground (arith, n, m), λ h. ground (arith, n, m, h.0, h.1))

-- After some runs a command is let through, at a floor above zero, exactly if its head is one of those
-- that are always cheap, or it has run twice at least and always in less than the floor.
pub known_fast-memo_iff :
    (runs : List Timing) (cmd : Text) (floor : ℕ)
    → 0 < floor
    → (known_fast (memo_of runs) cmd floor ≡ true) ↔ (
        (in_set always_cheap (first_word cmd) ≡ true)
        ⊎ (2 ≤ length (durations cmd runs)) × All (λ d. d < floor) (durations cmd runs))
unfolding known_fast
known_fast-memo_iff runs cmd floor z =
    let (to, from) =
      fast_entry (get (memo_of runs) cmd) (durations cmd runs) floor (memo_entry cmd runs) in
    let (down, up) = longest-All (durations cmd runs) floor z in
    let positive : (floor == 0) ≡ false = ground arith in
    elim (Bool-cases (in_set always_cheap (first_word cmd))) [
      | inl c ↦ rw (positive, c) (λ h. inl refl, λ h. refl)
      | inr c ↦
          rw (positive, c)
            (
              λ h. inr ((to h).0, down (to h).1),
              λ h. elim h [ inl x ↦ cc x | inr y ↦ from (y.0, up y.1) ],
            )
    ]
