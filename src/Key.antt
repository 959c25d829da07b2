-- ===== src/Key.antt =====
-- internal/hp/key.go: the state of a workspace, the normal form of a command, and the key. Git, the
-- file system and the environment, from which the state is measured, are not modelled.
pub mod Normal
pub mod Injective
pub mod LineBreak
mod Tests
use fasthack.Prelude.{Bool, ◌&&◌, List, [], ◌∷◌, ◌++◌, if◌then◌else◌}
use fasthack.Text.{Text, text, text_eq, is_empty, is_space}

-- State
pub record State : Type 0 where
  pub tree : Text
  pub env_fp : Text
  pub env_complete : Bool

-- State.Equal
unfoldable pub equal : State → State → Bool
equal s o = text_eq s.tree o.tree && text_eq s.env_fp o.env_fp

-- Puts a field in front of those that follow, unless it is empty.
abbrev pub keep_field : Text → List Text → List Text
keep_field [] fs = fs
keep_field (c ∷ f) fs = (c ∷ f) ∷ fs

-- strings.Fields, with the field that is being read in `field`
unfoldable pub fields_from : Text → Text → List Text
fields_from field [] = keep_field field []
fields_from field (c ∷ s) =
    let cut = keep_field field (fields_from [] s) in
    let grow = fields_from (field ++ c ∷ []) s in if is_space c then cut else grow

-- strings.Fields
unfoldable pub fields : Text → List Text
fields s = fields_from [] s

-- strings.Join(fs, " ")
unfoldable pub join_fields : List Text → Text
join_fields [] = []
join_fields (f ∷ []) = f
join_fields (f ∷ g ∷ fs) = f ++ b' ' ∷ join_fields (g ∷ fs)

-- NormalizeCommand
unfoldable pub normalize_command : Text → Text
normalize_command cmd = join_fields (fields cmd)

-- KeyVersion
unfoldable pub key_version : Text
key_version = text "hs-v1"

-- One round of the loop of `KeyText`.
unfoldable pub key_line : Text → Text → Text
key_line k v = k ++ b'=' ∷ v ++ 10 ∷ []

-- KeyText
unfoldable pub key_text : State → Text → Text → Text
key_text st cwd_rel cmd_norm =
    key_line (text "v") key_version
    ++ (key_line (text "tree") st.tree
        ++ (key_line (text "env_fp") st.env_fp
            ++ (key_line (text "cwd") cwd_rel ++ key_line (text "cmd") cmd_norm)))

-- Key, over the digest hex(SHA-256(...)) of a text
unfoldable pub key : (Text → Text) → State → Text → Text → Text
key digest st cwd_rel cmd_norm = key_version ++ b':' ∷ digest (key_text st cwd_rel cmd_norm)
