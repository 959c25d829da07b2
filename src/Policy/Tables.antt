-- ===== src/Policy/Tables.antt =====
-- The tables of internal/hp/policy.go, each a `map[string]bool` whose entries are all true.
use fasthack.Prelude.{String, List, [], ◌∷◌}

-- Heads that can print something different on two runs at one state.
unfoldable pub non_hermetic_heads : List String
non_hermetic_heads =
    "date" ∷ "time" ∷ "sleep" ∷ "curl" ∷ "wget" ∷ "nc" ∷ "ssh" ∷ "scp" ∷ "ping" ∷ "uuidgen"
    ∷ "hostname" ∷ "whoami" ∷ "ps" ∷ "top" ∷ "df" ∷ "free" ∷ "uptime" ∷ "env" ∷ "printenv"
    ∷ "mktemp" ∷ "tempfile" ∷ []

-- Heads that change the workspace.
unfoldable pub mutation_heads : List String
mutation_heads =
    "rm" ∷ "mv" ∷ "cp" ∷ "touch" ∷ "mkdir" ∷ "rmdir" ∷ "chmod" ∷ "chown" ∷ "ln" ∷ "dd" ∷ "truncate"
    ∷ "install" ∷ "tee" ∷ "patch" ∷ []

-- Heads that plausibly only read.
unfoldable pub read_heads : List String
read_heads =
    "grep" ∷ "rg" ∷ "cat" ∷ "ls" ∷ "find" ∷ "head" ∷ "tail" ∷ "wc" ∷ "sort" ∷ "uniq" ∷ "cut" ∷ "awk"
    ∷ "diff" ∷ "file" ∷ "tree" ∷ "basename" ∷ "dirname" ∷ "realpath" ∷ "nl" ∷ "md5sum" ∷ "shasum"
    ∷ "echo" ∷ "pwd" ∷ "which" ∷ []

-- Heads that print metadata which the tree hash does not cover.
unfoldable pub metadata_heads : List String
metadata_heads = "stat" ∷ "du" ∷ "df" ∷ []

-- Test, build and lint commands.
unfoldable pub build_heads : List String
build_heads =
    "pytest" ∷ "make" ∷ "tsc" ∷ "mypy" ∷ "ruff" ∷ "flake8" ∷ "eslint" ∷ "jest" ∷ "vitest" ∷ "python"
    ∷ "python3" ∷ "node" ∷ "yarn" ∷ "pnpm" ∷ []

-- Heads that move the installed packages.
unfoldable pub install_heads : List String
install_heads = "pip" ∷ "pip3" ∷ "uv" ∷ "poetry" ∷ "conda" ∷ []

-- git subcommands that read.
unfoldable pub git_read_subs : List String
git_read_subs =
    "status" ∷ "log" ∷ "diff" ∷ "show" ∷ "blame" ∷ "ls-files" ∷ "rev-parse" ∷ "describe" ∷ "branch"
    ∷ "tag" ∷ "cat-file" ∷ []

-- git subcommands that write.
unfoldable pub git_mutation_subs : List String
git_mutation_subs = "apply" ∷ "checkout" ∷ "commit" ∷ "add" ∷ []

-- git subcommands that reach another repository.
unfoldable pub git_non_hermetic_subs : List String
git_non_hermetic_subs = "push" ∷ "pull" ∷ "fetch" ∷ "clone" ∷ "remote" ∷ []

-- Shells that run what is piped into them.
unfoldable pub pipe_shells : List String
pipe_shells = "sh" ∷ "bash" ∷ "zsh" ∷ []

-- `subcommandHeads`, one table for each of its three heads.
unfoldable pub go_subs : List String
go_subs = "test" ∷ "build" ∷ "vet" ∷ []

unfoldable pub cargo_subs : List String
cargo_subs = "test" ∷ "build" ∷ []

unfoldable pub npm_subs : List String
npm_subs = "test" ∷ "run" ∷ []
