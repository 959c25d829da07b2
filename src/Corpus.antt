-- ===== src/Corpus.antt =====
-- internal/hp/corpus.go: recorded attempts, the tallies of a replay, and the keys that it simulates. The
-- number of a step is not negative.
pub mod Load
pub mod Classes
pub mod Replay
mod Headline
mod Tests
mod Attribution
mod Slices
use fasthack.Prelude.{
  ℕ, ◌+◌, Bool, true, false, ◌||◌, Option, none, some, List, [], ◌∷◌, ◌++◌, if◌then◌else◌,
}
use fasthack.Text.{Text, text, text_eq, is_empty}
use fasthack.Key.{normalize_command}
use fasthack.Readset.Parse.{ℤ}

-- CorpusStep
pub record CorpusStep : Type 0 where
  pub n : ℕ
  pub cmd : Text
  pub state : Text
  pub rc_stored : ℤ
  pub rc_replay : ℤ
  pub mutated : Bool

-- Trajectory
pub record Trajectory : Type 0 where
  pub path : Text
  pub instance_id : Text
  pub submission : Text
  pub steps : List CorpusStep

-- Keying
pub data Keying : Type 0 where
  key_state key_command : Keying

-- Keying.String
unfoldable pub keying_string : Keying → Text
keying_string key_command = text "command"
keying_string key_state = text "state"

-- ParseKeying; `none` is the error
unfoldable pub parse_keying : Text → Option Keying
parse_keying s =
    if is_empty s || text_eq s (text "state")
    then some key_state
    else if text_eq s (text "command") || text_eq s (text "cmd")
    then some key_command
    else none

-- Tally
pub record Tally : Type 0 where
  pub commands : ℕ
  pub avoidable : ℕ
  pub self_reuse : ℕ
  pub cross_agent : ℕ

abbrev pub no_tally : Tally
no_tally = record { commands = 0; avoidable = 0; self_reuse = 0; cross_agent = 0 }

-- reuseKind
pub data ReuseKind : Type 0 where
  first_run self_reuse cross_agent : ReuseKind

-- Tally.add
unfoldable pub add : ReuseKind → Tally → Tally
add first_run t = record t { commands = t.commands + 1 }
add self_reuse t = record t {
  commands = t.commands + 1;
  avoidable = t.avoidable + 1;
  self_reuse = t.self_reuse + 1;
}
add cross_agent t = record t {
  commands = t.commands + 1;
  avoidable = t.avoidable + 1;
  cross_agent = t.cross_agent + 1;
}

-- replayKey
unfoldable pub replay_key : Keying → CorpusStep → Text
replay_key key_command st = normalize_command st.cmd
replay_key key_state st = st.state ++ 0 ∷ normalize_command st.cmd
