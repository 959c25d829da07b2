-- ===== src/Artifact/Restore.antt =====
-- internal/hp/artifact.go: Materialize. What the machine and its disk answer is a `Machine`; a snapshot
-- is what its bytes unpack to, if they do, and their hash.
use fasthack.Prelude.{
  ℕ, Bool, true, false, not, ◌&&◌, Option, none, some, List, [], ◌∷◌, ◌==◌, if◌then◌else◌,
}
use fasthack.Text.{Text, text, text_eq}
use fasthack.Dict.{Dict, get, put}
use fasthack.Artifact.{artifact_version, Artifact, Tree, MaterializeOptions}
use fasthack.Artifact.Relocate.{RootPair, relocation_replacers, apply_rewrites}

pub data Target : Type 0 where
  absent plain_file : Target
  directory : Tree → Target

-- The hash of the archive of a tree, in which the flagged texts are substituted, and what exists.
pub record Machine : Type 0 where
  pub goos : Text
  pub goarch : Text
  pub hash_tree : Tree → List RootPair → List Text → List Text → Text
  pub exists : Text → Bool

pub record Snapshot : Type 0 where
  pub unpacked : Option Tree
  pub hash : Text

pub record Disk : Type 0 where
  pub target : Target
  pub snapshots : Dict Snapshot
  pub clones : Dict Tree

-- The errors.
pub data Failure : Type 0 where
  wrong_version : ℕ → Failure
  wrong_platform target_exists snapshot_missing corrupt missing_rewrite : Failure
  not_relocatable broken_link : Text → Failure

abbrev pub is_nil {ℓ} : {A : Type ℓ} → List A → Bool
is_nil [] = true
is_nil (x ∷ xs) = false

-- dirIsEmpty
unfoldable pub is_bare : Tree → Bool
is_bare t = is_nil t.files && is_nil t.links && is_nil t.dirs

-- checkTargetFree: what it leaves at the target, or its refusal
unfoldable pub check_target_free : Bool → Target → Option Target
check_target_free overwrite absent = some absent
check_target_free overwrite plain_file = none
check_target_free overwrite (directory t) =
    if is_bare t then some absent else if not overwrite then none else some (directory t)

pub data Found : Type 0 where
  found : Tree → Found
  lacking : Failure → Found

unfoldable pub from_unpacked : Text → Text → Option Tree → Found
from_unpacked sha hash none = lacking corrupt
from_unpacked sha hash (some t) = if text_eq hash sha then found t else lacking corrupt

-- ensureCloneSource
unfoldable pub ensure_clone_source : Text → Option Snapshot → Found
ensure_clone_source sha none = lacking snapshot_missing
ensure_clone_source sha (some s) = from_unpacked sha s.hash s.unpacked

unfoldable pub clone_source : Text → Disk → Option Tree → Found
clone_source sha disk (some t) = found t
clone_source sha disk none = ensure_clone_source sha (get disk.snapshots sha)

-- The first external link whose target is gone.
unfoldable pub first_broken : (Text → Bool) → List Text → Option Text
first_broken exists [] = none
first_broken exists (l ∷ ls) =
    let later = first_broken exists ls in if exists l then later else some l

unfoldable pub is_relocating : Artifact → Text → Bool
is_relocating a root = not (text_eq root a.source_root)

-- fwd and rev, which are nil where nothing moves
unfoldable pub replacers : Machine → Artifact → Text → List RootPair × List RootPair
replacers m a root =
    if is_relocating a root
    then relocation_replacers (text_eq m.goos (text "darwin")) a.source_root root
    else ([], [])

-- The rename of the stage, behind every check.
unfoldable pub commit : Tree → Disk → Option Failure × Disk
commit stage disk = (none, record disk { target = directory stage })

unfoldable pub on_links :
    Machine
    → Artifact
    → MaterializeOptions
    → List RootPair
    → Tree
    → Option Text
    → Disk
    → Option Failure × Disk
on_links m a opt rev stage (some l) disk = (some (broken_link l), disk)
on_links m a opt rev stage none disk =
    if opt.verify && not (text_eq (m.hash_tree stage rev a.rewrites a.symlink_rewrites) a.tar_sha)
    then (some corrupt, disk)
    else commit stage disk

unfoldable pub on_stage :
    Machine
    → Artifact
    → MaterializeOptions
    → List RootPair
    → Option Tree
    → Disk
    → Option Failure × Disk
on_stage m a opt rev none disk = (some missing_rewrite, disk)
on_stage m a opt rev (some stage) disk =
    on_links m a opt rev stage (first_broken m.exists a.external_links) disk

unfoldable pub staged : Artifact → Text → List RootPair → Tree → Option Tree
staged a root fwd clone =
    if is_relocating a root
    then apply_rewrites clone a.rewrites a.symlink_rewrites fwd
    else some clone

unfoldable pub on_clone :
    Machine → Artifact → MaterializeOptions → Text → Found → Disk → Option Failure × Disk
on_clone m a opt root (lacking f) disk = (some f, disk)
on_clone m a opt root (found clone) disk =
    let (fwd, rev) = replacers m a root in
    on_stage m a opt rev (staged a root fwd clone)
      (record disk { clones = put disk.clones a.tar_sha clone })

unfoldable pub on_target :
    Machine → Artifact → MaterializeOptions → Text → Option Target → Disk → Option Failure × Disk
on_target m a opt root none disk = (some target_exists, disk)
on_target m a opt root (some t) disk =
    on_clone m a opt root (clone_source a.tar_sha disk (get disk.clones a.tar_sha))
      (record disk { target = t })

-- Materialize, into a root that is resolved
unfoldable pub materialize :
    Machine → Artifact → MaterializeOptions → Text → Disk → Option Failure × Disk
materialize m a opt root disk =
    if not (a.version == artifact_version)
    then (some (wrong_version a.version), disk)
    else if not (text_eq a.goos m.goos && text_eq a.goarch m.goarch)
    then (some wrong_platform, disk)
    else if is_relocating a root && not a.relocatable
    then (some (not_relocatable a.refusal), disk)
    else on_target m a opt root (check_target_free opt.overwrite disk.target) disk
