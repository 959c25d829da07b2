-- ===== src/Artifact.antt =====
-- internal/hp/artifact.go: restoring a captured directory into a worktree. A directory is its files,
-- its symbolic links and its empty directories, by their paths; modes, times, time limits and the errors
-- of the disk are left out.
pub mod Relocate
pub mod Restore
mod Restored
mod Tests
use fasthack.Prelude.{ℕ, Bool, List}
use fasthack.Text.{Text}
use fasthack.Dict.{Dict}

-- ArtifactVersion
abbrev pub artifact_version : ℕ
artifact_version = 1

-- Artifact, by the fields that a restore reads
pub record Artifact : Type 0 where
  pub version : ℕ
  pub tar_sha : Text
  pub source_root : Text
  pub relocatable : Bool
  pub refusal : Text
  pub rewrites : List Text
  pub symlink_rewrites : List Text
  pub external_links : List Text
  pub goos : Text
  pub goarch : Text

-- The directories are those that hold nothing.
pub record Tree : Type 0 where
  pub files : Dict Text
  pub links : Dict Text
  pub dirs : List Text

-- MaterializeOptions, without its time limit
pub record MaterializeOptions : Type 0 where
  pub overwrite : Bool
  pub verify : Bool
