-- ===== src/Speculate.antt =====
-- internal/hp/speculate.go: what the log teaches about commands and about where the agents stand.
-- Maps keep the order of their insertion, and the sorts by distinct keys remove it.
pub mod Learn
pub mod Suggest
pub mod Ledger
mod Useful
mod Tests
mod Bounds
mod Placed
mod Sources
mod Evidence
mod Known
mod Balance
use fasthack.Prelude.{ℕ, Bool, List}
use fasthack.Text.{Text, text}
use fasthack.Dict.{Dict}

-- SpeculatorAgent
unfoldable pub speculator_agent : Text
speculator_agent = text "speculator"

-- specMinObservations
abbrev pub spec_min_observations : ℕ
spec_min_observations = 2

-- specRecentSites
abbrev pub spec_recent_sites : ℕ
spec_recent_sites = 8

-- defaultSuggestLimit
abbrev pub default_suggest_limit : ℕ
default_suggest_limit = 10

-- cmdEvidence
pub record CmdEvidence : Type 0 where
  pub cmd : Text
  pub cmd_norm : Text
  pub cwd_rel : Text
  pub max_ms : ℕ
  pub demands : ℕ
  pub trees : Dict Bool

-- specSite
pub record SpecSite : Type 0 where
  pub tree : Text
  pub env_fp : Text
  pub agents : Dict Bool
  pub seq : ℕ

-- The variables of `learnFromLog`.
pub record Model : Type 0 where
  pub by_cmd : Dict CmdEvidence
  pub by_site : Dict SpecSite
  pub pos : Dict Text
  pub tree_set : Dict Bool
  pub attempted : Dict Bool
  pub seq : ℕ
