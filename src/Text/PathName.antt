-- ===== src/Text/PathName.antt =====
-- The parts of Go's packages `path` and `path/filepath` that the program uses, on slash paths
-- (`filepath.ToSlash` is the identity there).
use fasthack.Prelude.{Bool, true, false, ◌&&◌, List, [], ◌∷◌, ◌++◌, ◌==◌, if◌then◌else◌}
use fasthack.Text.{Text, is_empty, text_eq, has_rune}

abbrev pub slash : Text
slash = b'/' ∷ []

abbrev pub dot : Text
dot = b'.' ∷ []

abbrev pub dot_dot : Text
dot_dot = b'.' ∷ b'.' ∷ []

-- strings.Split(s, "/"), the first part built up in `part`
unfoldable pub split_parts : Text → Text → List Text
split_parts part [] = part ∷ []
split_parts part (c ∷ s) =
    let cut = part ∷ split_parts [] s in
    let grow = split_parts (part ++ c ∷ []) s in if c == b'/' then cut else grow

-- strings.Join(parts, "/")
unfoldable pub join_parts : List Text → Text
join_parts [] = []
join_parts (p ∷ []) = p
join_parts (p ∷ q ∷ ps) = p ++ b'/' ∷ join_parts (q ∷ ps)

-- One part of a path, onto the parts kept so far, the last first.
unfoldable pub clean_part : Bool → List Text → Text → List Text
clean_part rooted [] p =
    if is_empty p
    then []
    else if text_eq p dot
    then []
    else if text_eq p dot_dot && rooted
    then []
    else p ∷ []
clean_part rooted (k ∷ kept) p =
    if is_empty p
    then k ∷ kept
    else if text_eq p dot
    then k ∷ kept
    else if text_eq p dot_dot
    then (if text_eq k dot_dot then p ∷ k ∷ kept else kept)
    else p ∷ k ∷ kept

unfoldable pub clean_parts : Bool → List Text → List Text → List Text
clean_parts rooted kept [] = kept
clean_parts rooted kept (p ∷ ps) = clean_parts rooted (clean_part rooted kept p) ps

unfoldable pub rev_onto : List Text → List Text → List Text
rev_onto [] ps = ps
rev_onto (k ∷ ks) ps = rev_onto ks (k ∷ ps)

-- path.IsAbs, filepath.IsAbs
unfoldable pub is_abs : Text → Bool
is_abs [] = false
is_abs (c ∷ s) = c == b'/'

-- path.Clean
unfoldable pub clean : Text → Text
clean s =
    let rooted = is_abs s in
    let body = join_parts (rev_onto (clean_parts rooted [] (split_parts [] s)) []) in
    if rooted then b'/' ∷ body else if is_empty body then dot else body

-- path.Join of two elements: empty ones are left out
unfoldable pub join : Text → Text → Text
join [] [] = []
join [] (c ∷ b) = clean (c ∷ b)
join (c ∷ a) [] = clean (c ∷ a)
join (c ∷ a) (d ∷ b) = clean ((c ∷ a) ++ b'/' ∷ d ∷ b)

unfoldable pub all_slashes : Text → Bool
all_slashes [] = true
all_slashes (c ∷ s) = c == b'/' && all_slashes s

-- The text without its trailing slashes.
unfoldable pub strip_slashes : Text → Text
strip_slashes [] = []
strip_slashes (c ∷ s) = if all_slashes (c ∷ s) then [] else c ∷ strip_slashes s

-- The text behind its last slash.
unfoldable pub last_part : Text → Text
last_part [] = []
last_part (c ∷ s) = if has_rune b'/' s then last_part s else if c == b'/' then s else c ∷ s

-- path.Base
unfoldable pub base : Text → Text
base [] = dot
base (c ∷ s) = let last = last_part (strip_slashes (c ∷ s)) in if is_empty last then slash else last

-- The text from its last dot on, empty if it has none.
unfoldable pub last_dot : Text → Text
last_dot [] = []
last_dot (c ∷ s) = if has_rune b'.' s then last_dot s else if c == b'.' then c ∷ s else []

-- path.Ext
unfoldable pub ext : Text → Text
ext s = last_dot (last_part s)

-- The text up to its last slash, that slash included.
unfoldable pub dir_part : Text → Text
dir_part [] = []
dir_part (c ∷ s) = if has_rune b'/' (c ∷ s) then c ∷ dir_part s else []

-- path.Dir
unfoldable pub dir : Text → Text
dir s = clean (dir_part s)
