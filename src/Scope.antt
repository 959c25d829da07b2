-- ===== src/Scope.antt =====
-- internal/hp/scope.go: when a record made at another tree may be served (tier 1). The disk and git
-- are parameters, a `Repo`. The functions that answer with a value or a refusal answer with a
-- `Scoped`.
pub mod Tables
pub mod Paths
pub mod Args
pub mod Match
pub mod Conflict
pub mod Covers
pub mod Union
pub mod SelfContained
pub mod Promotion
pub mod Run
mod Tests
use fasthack.Prelude.{Bool, List}
use fasthack.Text.{Text}

-- What git prints, or why it fails.
pub data GitOutput : Type 0 where
  printed : Text → GitOutput
  failed : Text → GitOutput

-- The repository root, whether a path below it exists (os.Lstat), the names of the paths that
-- differ between two trees (git diff-tree -z --name-only --no-renames), and of those that were
-- added (the same with --diff-filter=A).
pub record Repo : Type 0 where
  pub root : Text
  pub exists : Text → Bool
  pub diff_names : Text → Text → GitOutput
  pub added_names : Text → Text → GitOutput

-- ScopeDecision
pub record ScopeDecision : Type 0 where
  pub promoted : Bool
  pub reason : Text
  pub changed_paths : List Text
  pub scope_paths : List Text

-- A value, or the reason of a refusal.
pub data Scoped (A : Type 0) : Type 0 where
  found : A → Scoped A
  refused : Text → Scoped A
