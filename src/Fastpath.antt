-- ===== src/Fastpath.antt =====
-- internal/hp/fastpath.go: the memo of durations, by which the hook leaves cheap commands alone. The
-- file that it is kept in is not modelled.
pub mod Memo
mod Tests
use fasthack.Prelude.{
  ℕ, ◌+◌, Bool, true, false, not, ◌&&◌, Option, none, some, List, [], ◌∷◌, String, ltb, leb, ◌==◌,
  if◌then◌else◌,
}
use fasthack.Text.{Text, in_set, before}
use fasthack.Dict.{Dict, get, put}

-- fastpathSamples
abbrev pub fastpath_samples : ℕ
fastpath_samples = 2

-- alwaysCheap
unfoldable pub always_cheap : List String
always_cheap = "echo" ∷ "pwd" ∷ "true" ∷ "false" ∷ ":" ∷ "basename" ∷ "dirname" ∷ "printf" ∷ []

-- fastpathEntry
pub record FastpathEntry : Type 0 where
  pub max_ms : ℕ
  pub n : ℕ

abbrev pub Fastpath : Type 0
Fastpath = Dict FastpathEntry

-- firstWord
unfoldable pub first_word : Text → Text
first_word s = before b' ' s

abbrev pub is_fast : ℕ → Option FastpathEntry → Bool
is_fast floor none = false
is_fast floor (some e) = leb fastpath_samples e.n && ltb e.max_ms floor

-- KnownFast; the floor is not negative
unfoldable pub known_fast : Fastpath → Text → ℕ → Bool
known_fast f cmd_norm floor =
    if floor == 0
    then false
    else if in_set always_cheap (first_word cmd_norm)
    then true
    else is_fast floor (get f cmd_norm)

abbrev pub or_zero : Option FastpathEntry → FastpathEntry
or_zero none = record { max_ms = 0; n = 0 }
or_zero (some e) = e

-- The entry after one more run.
unfoldable pub observed : FastpathEntry → ℕ → FastpathEntry
observed e dur = record { max_ms = if ltb e.max_ms dur then dur else e.max_ms; n = e.n + 1 }

-- Observe
unfoldable pub observe : Fastpath → Text → ℕ → Fastpath
observe f cmd_norm dur = put f cmd_norm (observed (or_zero (get f cmd_norm)) dur)
