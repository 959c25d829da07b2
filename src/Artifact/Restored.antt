-- ===== src/Artifact/Restored.antt =====
-- internal/hp/artifact.go: what Materialize puts in place, and what a refusal leaves.
use mathlib.Core.Option.{some-injective}
use fasthack.Prelude.{
  ◌≡◌, ◌≢◌, ◌⊎◌, refl, subst, inl, inr, Bool, true, false, not, ◌&&◌, Option, none, some, List, [],
  ◌∷◌, arith, ◌==◌, if◌then◌else◌, Bool-cases, All,
}
use fasthack.Text.{Text, text_eq}
use fasthack.Text.Laws.{text_eq_sound, text_eq_refl}
use fasthack.Dict.{get, put}
use fasthack.Dict.Laws.{get-put}
use fasthack.Artifact.{artifact_version, Artifact, Tree, MaterializeOptions}
use fasthack.Artifact.Restore.{
  Target, absent, plain_file, directory, Machine, Disk, Failure, wrong_version, wrong_platform,
  corrupt, not_relocatable, is_bare, check_target_free, Found, found, lacking, clone_source,
  first_broken, is_relocating, replacers, commit, on_links, on_stage, staged, on_clone, on_target,
  materialize,
}

-- A target that may be replaced.
pub data IsFree (overwrite : Bool) : Target → Type 0 where
  free_absent : IsFree overwrite absent
  free_bare : (t : Tree) → is_bare t ≡ true → IsFree overwrite (directory t)
  free_overwrite : (t : Tree) → overwrite ≡ true → IsFree overwrite (directory t)

-- What a target may have become before it is replaced: itself, or, if it is a directory with nothing
-- in it, absent.
pub data IsLeft : Target → Target → Type 0 where
  left_same : (t : Target) → IsLeft t t
  left_bare : (t : Tree) → is_bare t ≡ true → IsLeft (directory t) absent

check_target_free-IsLeft :
    (overwrite : Bool) (before after : Target)
    → check_target_free overwrite before ≡ some after
    → IsFree overwrite before × IsLeft before after
unfolding check_target_free
check_target_free-IsLeft overwrite absent after h =
    (free_absent, subst (λ t. IsLeft absent t) (some-injective _ _ h) (left_same absent))
check_target_free-IsLeft overwrite plain_file after h = absurd (cc h)
check_target_free-IsLeft overwrite (directory t) after h = by_bare (is_bare t) refl h
  where
    by_overwrite :
        (o : Bool)
        → overwrite ≡ o
        → (if not o then none else some (directory t)) ≡ some after
        → IsFree overwrite (directory t) × IsLeft (directory t) after
    by_overwrite true e g = (
      free_overwrite t e,
      subst (λ x. IsLeft (directory t) x) (some-injective _ _ g) (left_same (directory t)),
    )
    by_overwrite false e g = absurd (cc g)

    by_bare :
        (b : Bool)
        → is_bare t ≡ b
        → (if b then some absent else if not overwrite then none else some (directory t))
          ≡ some after
        → IsFree overwrite (directory t) × IsLeft (directory t) after
    by_bare true e g =
        (free_bare t e, subst (λ x. IsLeft (directory t) x) (some-injective _ _ g) (left_bare t e))
    by_bare false e g = by_overwrite overwrite refl g

first_broken-none :
    (exists : Text → Bool) (ls : List Text)
    → first_broken exists ls ≡ none
    → All (λ l. exists l ≡ true) ls
unfolding first_broken
first_broken-none exists [] h = tt
first_broken-none exists (l ∷ ls) h = elim (Bool-cases (exists l)) [
  | inl e ↦ (e, first_broken-none exists ls (rw e at h))
  | inr e ↦ absurd (cc (rw e at h))
]

module _ (m : Machine) (a : Artifact) (opt : MaterializeOptions) (root : Text)
    (before : Target) where
  -- A restored directory: it is the cached clone, its paths substituted if the root is another, which
  -- the artifact then allows; it was captured on this platform; the links out of it lead somewhere; if
  -- it was to be verified it has the recorded hash; and it stands where it was free to stand.
  pub record IsRestored (disk : Disk) : Type 0 where
    pub clone : Tree
    pub tree : Tree
    pub placed : disk.target ≡ directory tree
    pub cached : get disk.clones a.tar_sha ≡ some clone
    pub made : staged a root (replacers m a root).0 clone ≡ some tree
    pub format : a.version ≡ artifact_version
    pub goos : a.goos ≡ m.goos
    pub goarch : a.goarch ≡ m.goarch
    pub movable : (is_relocating a root ≡ false) ⊎ (a.relocatable ≡ true)
    pub linked : All (λ l. m.exists l ≡ true) a.external_links
    pub verified :
        (opt.verify ≡ false)
        ⊎ (m.hash_tree tree (replacers m a root).1 a.rewrites a.symlink_rewrites ≡ a.tar_sha)
    pub free : IsFree opt.overwrite before

  abbrev IsResult : Option Failure × Disk → Type 0
  IsResult (none, disk) = IsRestored disk
  IsResult (some f, disk) = IsLeft before disk.target

  module _ (format : a.version ≡ artifact_version) (goos : a.goos ≡ m.goos)
      (goarch : a.goarch ≡ m.goarch)
      (movable : (is_relocating a root ≡ false) ⊎ (a.relocatable ≡ true))
      (free : IsFree opt.overwrite before) where
    on_links-IsResult :
        (clone stage : Tree) (o : Option Text) (disk : Disk)
        → first_broken m.exists a.external_links ≡ o
        → staged a root (replacers m a root).0 clone ≡ some stage
        → get disk.clones a.tar_sha ≡ some clone
        → IsLeft before disk.target
        → IsResult (on_links m a opt (replacers m a root).1 stage o disk)
    unfolding on_links commit
    on_links-IsResult clone stage (some l) disk b made cached left = left
    on_links-IsResult clone stage none disk b made cached left =
        by_verify opt.verify (text_eq hash a.tar_sha) refl refl
      where
        hash : Text
        hash = m.hash_tree stage (replacers m a root).1 a.rewrites a.symlink_rewrites

        restored : (opt.verify ≡ false) ⊎ (hash ≡ a.tar_sha) → IsResult (commit stage disk)
        restored v = record {
          clone = clone;
          tree = stage;
          placed = refl;
          cached = cached;
          made = made;
          format = format;
          goos = goos;
          goarch = goarch;
          movable = movable;
          linked = first_broken-none m.exists a.external_links b;
          verified = v;
          free = free;
        }

        by_verify :
            (v b' : Bool)
            → opt.verify ≡ v
            → text_eq hash a.tar_sha ≡ b'
            → IsResult (if v && not b' then (some corrupt, disk) else commit stage disk)
        by_verify false b' e h = restored (inl e)
        by_verify true true e h = restored (inr (text_eq_sound hash a.tar_sha h))
        by_verify true false e h = left

    on_stage-IsResult :
        (clone : Tree) (o : Option Tree) (disk : Disk)
        → staged a root (replacers m a root).0 clone ≡ o
        → get disk.clones a.tar_sha ≡ some clone
        → IsLeft before disk.target
        → IsResult (on_stage m a opt (replacers m a root).1 o disk)
    unfolding on_stage
    on_stage-IsResult clone none disk made cached left = left
    on_stage-IsResult clone (some stage) disk made cached left =
        on_links-IsResult clone stage (first_broken m.exists a.external_links) disk refl made cached
          left

    on_clone-IsResult :
        (o : Found) (disk : Disk)
        → IsLeft before disk.target
        → IsResult (on_clone m a opt root o disk)
    unfolding on_clone
    on_clone-IsResult (lacking f) disk left = left
    on_clone-IsResult (found clone) disk left =
        on_stage-IsResult clone (staged a root (replacers m a root).0 clone)
          (record disk { clones = put disk.clones a.tar_sha clone }) refl
          (rw (get-put, text_eq_refl a.tar_sha) refl) left

  on_target-IsResult :
      (disk : Disk) (o : Option Target)
      → a.version ≡ artifact_version
      → a.goos ≡ m.goos
      → a.goarch ≡ m.goarch
      → (is_relocating a root ≡ false) ⊎ (a.relocatable ≡ true)
      → before ≡ disk.target
      → check_target_free opt.overwrite before ≡ o
      → IsResult (on_target m a opt root o disk)
  unfolding on_target
  on_target-IsResult disk none format goos goarch movable same free =
      subst (λ t. IsLeft before t) same (left_same before)
  on_target-IsResult disk (some t) format goos goarch movable same free =
      let (may, left) = check_target_free-IsLeft opt.overwrite before t free in
      on_clone-IsResult format goos goarch movable may
        (clone_source a.tar_sha disk (get disk.clones a.tar_sha)) (record disk { target = t }) left

materialize-IsResult :
    (m : Machine) (a : Artifact) (opt : MaterializeOptions) (root : Text) (disk : Disk)
    → IsResult m a opt root disk.target (materialize m a opt root disk)
unfolding materialize
materialize-IsResult m a opt root disk = by_version (a.version == artifact_version) refl
  where
    left : IsLeft disk.target disk.target
    left = left_same disk.target

    by_move :
        (r k : Bool)
        → is_relocating a root ≡ r
        → a.relocatable ≡ k
        → a.version ≡ artifact_version
        → a.goos ≡ m.goos
        → a.goarch ≡ m.goarch
        → IsResult m a opt root disk.target (
            if r && not k
            then (some (not_relocatable a.refusal), disk)
            else on_target m a opt root (check_target_free opt.overwrite disk.target) disk)
    by_move true false r k v o c = left
    by_move true true r k v o c =
        on_target-IsResult m a opt root disk.target disk
          (check_target_free opt.overwrite disk.target) v o c (inr k) refl refl
    by_move false k r k' v o c =
        on_target-IsResult m a opt root disk.target disk
          (check_target_free opt.overwrite disk.target) v o c (inl r) refl refl

    by_platform :
        (b c : Bool)
        → text_eq a.goos m.goos ≡ b
        → text_eq a.goarch m.goarch ≡ c
        → a.version ≡ artifact_version
        → IsResult m a opt root disk.target (
            if not (b && c)
            then (some wrong_platform, disk)
            else if is_relocating a root && not a.relocatable
            then (some (not_relocatable a.refusal), disk)
            else on_target m a opt root (check_target_free opt.overwrite disk.target) disk)
    by_platform false c o h v = left
    by_platform true false o h v = left
    by_platform true true o h v =
        by_move (is_relocating a root) a.relocatable refl refl v (text_eq_sound a.goos m.goos o)
          (text_eq_sound a.goarch m.goarch h)

    by_version :
        (b : Bool)
        → (a.version == artifact_version) ≡ b
        → IsResult m a opt root disk.target (
            if not b
            then (some (wrong_version a.version), disk)
            else if not (text_eq a.goos m.goos && text_eq a.goarch m.goarch)
            then (some wrong_platform, disk)
            else if is_relocating a root && not a.relocatable
            then (some (not_relocatable a.refusal), disk)
            else on_target m a opt root (check_target_free opt.overwrite disk.target) disk)
    by_version false e = left
    by_version true e =
        by_platform (text_eq a.goos m.goos) (text_eq a.goarch m.goarch) refl refl (ground arith)

module _ (m : Machine) (a : Artifact) (opt : MaterializeOptions) (root : Text)
    (before : Target) where
  result_done :
      (p : Option Failure × Disk)
      → IsResult m a opt root before p
      → p.0 ≡ none
      → IsRestored m a opt root before p.1
  result_done (none, disk) i h = i
  result_done (some f, disk) i h = absurd (cc h)

  result_failed :
      (p : Option Failure × Disk)
      → IsResult m a opt root before p
      → p.0 ≢ none
      → IsLeft before p.1.target
  result_failed (none, disk) i h = absurd (h refl)
  result_failed (some f, disk) i h = i

-- What is restored is the cached clone with the paths of the worktree substituted, which the artifact
-- allows if the root is another; it was captured on this platform, its links out of it lead somewhere,
-- it has the recorded hash if that is to be verified, and it replaces nothing but a directory with
-- nothing in it or one that may be overwritten.
pub materialize-IsRestored :
    (m : Machine) (a : Artifact) (opt : MaterializeOptions) (root : Text) (disk : Disk)
    → (materialize m a opt root disk).0 ≡ none
    → IsRestored m a opt root disk.target (materialize m a opt root disk).1
materialize-IsRestored m a opt root disk =
    result_done m a opt root disk.target (materialize m a opt root disk)
      (materialize-IsResult m a opt root disk)

-- A restore that fails leaves the target as it was, or takes away a directory with nothing in it.
pub materialize-IsLeft :
    (m : Machine) (a : Artifact) (opt : MaterializeOptions) (root : Text) (disk : Disk)
    → (materialize m a opt root disk).0 ≢ none
    → IsLeft disk.target (materialize m a opt root disk).1.target
materialize-IsLeft m a opt root disk =
    result_failed m a opt root disk.target (materialize m a opt root disk)
      (materialize-IsResult m a opt root disk)
