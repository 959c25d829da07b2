-- ===== src/Scope/Tables.antt =====
-- internal/hp/scope.go: the tables.
use fasthack.Prelude.{String, List, [], ◌∷◌}

-- selfContainedReaders
unfoldable pub self_contained_readers : List String
self_contained_readers =
    "cat" ∷ "head" ∷ "tail" ∷ "wc" ∷ "nl" ∷ "md5sum" ∷ "shasum" ∷ "sha1sum" ∷ "sha256sum" ∷ "cksum"
    ∷ "base64" ∷ "file" ∷ "cmp" ∷ "diff" ∷ []

-- scopeRefuseHeads
unfoldable pub scope_refuse_heads : List String
scope_refuse_heads =
    "git" ∷ "hg" ∷ "svn" ∷ "jj" ∷ "find" ∷ "fd" ∷ "tree" ∷ "ls" ∷ "du" ∷ "rsync" ∷ "tar" ∷ "zip"
    ∷ "unzip" ∷ "make" ∷ "gmake" ∷ "cmake" ∷ "ninja" ∷ "meson" ∷ "bazel" ∷ "buck" ∷ "gradle" ∷ "mvn"
    ∷ "ant" ∷ "rake" ∷ "just" ∷ "task" ∷ "scons" ∷ "go" ∷ "cargo" ∷ "npm" ∷ "yarn" ∷ "pnpm" ∷ "npx"
    ∷ "bun" ∷ "deno" ∷ "tsc" ∷ "tsx" ∷ "mypy" ∷ "pyright" ∷ "sh" ∷ "bash" ∷ "zsh" ∷ "fish" ∷ "dash"
    ∷ "eval" ∷ "exec" ∷ "source" ∷ "xargs" ∷ "watch" ∷ "parallel" ∷ []

-- scopeStdinFilters
unfoldable pub scope_stdin_filters : List String
scope_stdin_filters =
    "head" ∷ "tail" ∷ "wc" ∷ "sort" ∷ "uniq" ∷ "cut" ∷ "tr" ∷ "nl" ∷ "cat" ∷ "tee" ∷ "rev" ∷ "grep"
    ∷ "rg" ∷ "sed" ∷ "awk" ∷ "jq" ∷ "column" ∷ "fold" ∷ "paste" ∷ "less" ∷ "more" ∷ []

-- scopePathExts
unfoldable pub scope_path_exts : List String
scope_path_exts =
    ".py" ∷ ".pyi" ∷ ".ipynb" ∷ ".go" ∷ ".rs" ∷ ".js" ∷ ".jsx" ∷ ".mjs" ∷ ".cjs" ∷ ".ts" ∷ ".tsx"
    ∷ ".java" ∷ ".kt" ∷ ".rb" ∷ ".php" ∷ ".pl" ∷ ".lua" ∷ ".c" ∷ ".h" ∷ ".cc" ∷ ".cpp" ∷ ".hpp"
    ∷ ".cs" ∷ ".swift" ∷ ".scala" ∷ ".ex" ∷ ".exs" ∷ ".erl" ∷ ".sh" ∷ ".bash" ∷ ".zsh" ∷ ".sql"
    ∷ ".proto" ∷ ".json" ∷ ".yaml" ∷ ".yml" ∷ ".toml" ∷ ".ini" ∷ ".cfg" ∷ ".conf" ∷ ".lock" ∷ ".env"
    ∷ ".md" ∷ ".rst" ∷ ".txt" ∷ ".csv" ∷ ".tsv" ∷ ".html" ∷ ".css" ∷ ".scss" ∷ ".xml" ∷ []

-- scopeGlobalFiles
unfoldable pub scope_global_files : List String
scope_global_files =
    ".gitignore" ∷ ".gitattributes" ∷ ".ignore" ∷ ".rgignore" ∷ ".npmignore" ∷ ".dockerignore"
    ∷ "conftest.py" ∷ "pytest.ini" ∷ "tox.ini" ∷ "setup.cfg" ∷ "setup.py" ∷ "pyproject.toml"
    ∷ "requirements.txt" ∷ "constraints.txt" ∷ "uv.lock" ∷ "poetry.lock" ∷ "Pipfile"
    ∷ "Pipfile.lock" ∷ "mypy.ini" ∷ "ruff.toml" ∷ ".ruff.toml" ∷ ".flake8" ∷ "sitecustomize.py"
    ∷ "usercustomize.py" ∷ "package.json" ∷ "package-lock.json" ∷ "yarn.lock" ∷ "pnpm-lock.yaml"
    ∷ "bun.lockb" ∷ "tsconfig.json" ∷ "jsconfig.json" ∷ "Makefile" ∷ "makefile" ∷ "GNUmakefile"
    ∷ "CMakeLists.txt" ∷ "Cargo.toml" ∷ "Cargo.lock" ∷ "go.mod" ∷ "go.sum" ∷ "Gemfile"
    ∷ "Gemfile.lock" ∷ "build.gradle" ∷ "pom.xml" ∷ "Dockerfile" ∷ ".env" ∷ ".envrc" ∷ []

-- scopeGlobalPrefixes
unfoldable pub scope_global_prefixes : List String
scope_global_prefixes =
    ".eslintrc" ∷ ".prettierrc" ∷ ".babelrc" ∷ ".editorconfig" ∷ "babel.config." ∷ "jest.config."
    ∷ "vitest.config." ∷ "vite.config." ∷ "webpack.config." ∷ "rollup.config." ∷ "eslint.config."
    ∷ []
