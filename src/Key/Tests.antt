-- ===== src/Key/Tests.antt =====
-- Tests of the key.
use fasthack.Prelude.{◌≡◌, refl, true, [], ◌∷◌}
use fasthack.Text.{Text, codes, is_space}
use fasthack.Policy.Syntax.{first, semicolon, split_segments}
use fasthack.Key.{State, fields_from, fields, join_fields, normalize_command, key}
use fasthack.Key.Injective.{key_injective}
use fasthack.Key.LineBreak.{key-line_break}

-- The digest of the tests is the text itself.
abbrev itself : Text → Text
itself t = t

abbrev here : State
here = record { tree = codes "4b825d"; env_fp = codes "e69de2"; env_complete = true }

collapsed : normalize_command (codes "  go   test ./...\n") ≡ codes "go test ./..."
unfolding normalize_command fields fields_from join_fields is_space
collapsed = refl

key_injective_example :
    (here.tree ≡ here.tree)
    × (here.env_fp ≡ here.env_fp)
    × (codes "src" ≡ codes "src")
    × (normalize_command (codes "ls  -1") ≡ normalize_command (codes "ls -1"))
unfolding normalize_command fields fields_from join_fields is_space
key_injective_example =
    key_injective itself here here (codes "src") (codes "src") (codes "ls  -1") (codes "ls -1")
      (refl, (refl, (refl, (refl, (refl, (refl, tt))))))
      (refl, (refl, (refl, (refl, (refl, (refl, tt))))))
      (refl, (refl, (refl, (refl, (refl, (refl, tt))))))
      (refl, (refl, (refl, (refl, (refl, (refl, tt)))))) (λ e. e) refl

key-line_break_example :
    (key itself here (codes "") (normalize_command (codes "cat a\necho b"))
      ≡ key itself here (codes "") (normalize_command (codes "cat a echo b")))
    × (split_segments (codes "cat a\necho b")
        ≡ (record { sep = first; text = codes "cat a" })
          ∷ (record { sep = semicolon; text = codes "echo b" })
          ∷ [])
    × (split_segments (codes "cat a echo b")
        ≡ (record { sep = first; text = codes "cat a echo b" }) ∷ [])
key-line_break_example =
    key-line_break itself here (codes "") (codes "cat a") (codes "echo b")
      (refl, (refl, (refl, (refl, (refl, tt))))) (refl, (refl, (refl, (refl, (refl, (refl, tt))))))
