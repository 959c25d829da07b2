-- ===== src/Artifact/Tests.antt =====
-- A virtual environment that moves from one worktree to another.
use fasthack.Prelude.{◌≡◌, refl, true, false, some, List, [], ◌∷◌}
use fasthack.Text.{Text, codes, text, text_eq, is_empty, has_prefix}
use fasthack.Text.Cut.{cut_prefix}
use fasthack.Dict.{get, put}
use fasthack.Sort.{insert_by, sort_by}
use fasthack.Artifact.{Artifact, Tree, MaterializeOptions}
use fasthack.Artifact.Relocate.{
  RootPair, is_path_name_byte, continues, matches_root, hit, written, width, replace_from, replace,
  or_path, unresolve_path, usable_pair, root_pairs, longer_from, reversed, relocation_replacers,
  rewrite_at, rewrite_all, both_parts, apply_rewrites,
}
use fasthack.Artifact.Restore.{
  Target, absent, directory, Machine, Disk, Failure, is_bare, check_target_free, from_unpacked,
  ensure_clone_source, clone_source, first_broken, is_relocating, replacers, commit, on_links,
  on_stage, staged, on_clone, on_target, materialize,
}
use fasthack.Artifact.Restored.{IsRestored, IsLeft, materialize-IsRestored, materialize-IsLeft}
use mathlib.Core.Option.{Option}

abbrev roots : List RootPair
roots = record { from = codes "/f/a1"; to = codes "/f/b" } ∷ []

unfoldable run_replace : List RootPair → Text → Text
unfolding text_eq is_empty has_prefix is_path_name_byte continues matches_root hit written width
    replace_from replace
run_replace ps s = replace ps s

-- A directory whose name goes on is another directory.
bounded : replace roots (codes "/f/a1/x:/f/a10:/f/a1") ≡ codes "/f/b/x:/f/a10:/f/b"
unfolding run_replace
bounded = refl

abbrev environment : Artifact
environment = record {
  version = 1;
  tar_sha = codes "s";
  source_root = codes "/f/a1";
  relocatable = true;
  refusal = [];
  rewrites = codes "bin/pip" ∷ [];
  symlink_rewrites = [];
  external_links = codes "/usr/bin/python" ∷ [];
  goos = codes "linux";
  goarch = codes "arm64";
}

-- The hash of the tests is the same for every tree.
abbrev machine : Machine
machine = record {
  goos = codes "linux";
  goarch = codes "arm64";
  hash_tree = λ t ps files links. codes "s";
  exists = λ p. true;
}

abbrev captured : Tree
captured = record { files = (codes "bin/pip", codes "#!/f/a1/bin") ∷ []; links = []; dirs = [] }

abbrev careful : MaterializeOptions
careful = record { overwrite = false; verify = true }

abbrev disk_with : Target → Disk
disk_with t = record {
  target = t;
  snapshots = (codes "s", record { unpacked = some captured; hash = codes "s" }) ∷ [];
  clones = [];
}

unfoldable run_materialize : Disk → Option Failure × Disk
unfolding text run_replace cut_prefix get put insert_by sort_by or_path unresolve_path usable_pair
    root_pairs longer_from reversed relocation_replacers rewrite_at rewrite_all both_parts
    apply_rewrites is_bare check_target_free from_unpacked ensure_clone_source clone_source
    first_broken is_relocating replacers commit on_links on_stage staged on_clone on_target
    materialize
run_materialize disk = materialize machine environment careful (codes "/f/b") disk

moved :
    (materialize machine environment careful (codes "/f/b") (disk_with absent)).1.target
    ≡ directory
        (record { files = (codes "bin/pip", codes "#!/f/b/bin") ∷ []; links = []; dirs = [] })
unfolding run_materialize
moved = refl

materialize-IsRestored_example :
    IsRestored machine environment careful
      (codes "/f/b")
      absent
      (materialize machine environment careful (codes "/f/b") (disk_with absent)).1
unfolding run_materialize
materialize-IsRestored_example =
    materialize-IsRestored machine environment careful (codes "/f/b") (disk_with absent) refl

-- A disk without the snapshot, and with a directory that holds nothing.
abbrev emptied : Disk
emptied = record {
  target = directory (record { files = []; links = []; dirs = [] });
  snapshots = [];
  clones = [];
}

materialize-IsLeft_example :
    IsLeft
      (directory (record { files = []; links = []; dirs = [] }))
      (materialize machine environment careful (codes "/f/b") emptied).1.target
unfolding run_materialize
materialize-IsLeft_example =
    materialize-IsLeft machine environment careful (codes "/f/b") emptied (λ h. cc h)
