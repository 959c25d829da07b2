-- ===== src/Key/Injective.antt =====
-- internal/hp/key.go: the text that a key digests, and what it was made of.
use fasthack.Prelude.{ℕ, ◌≡◌, refl, subst, sym, ◌∙◌, ap, [], ◌∷◌, ◌++◌, append_assoc, arith}
use fasthack.Text.{Text, text}
use fasthack.Key.{State, key_version, key_line, key_text, key, normalize_command}
use fasthack.Key.Normal.{OneLine, OneLine-append, normalize_command-OneLine}

no_break_inside : (s t : Text) → OneLine (s ++ 10 ∷ t) → ⊥
no_break_inside [] t h = cc h.0
no_break_inside (c ∷ s) t h = no_break_inside s t h.1

abbrev behind : Text → Text
behind [] = []
behind (c ∷ s) = s

tail_eq : {c d : ℕ} {s t : Text} → c ∷ s ≡ d ∷ t → s ≡ t
tail_eq e = ap behind e

-- The first line of a text.
first_line :
    (a b s t : Text) → OneLine a → OneLine b → a ++ 10 ∷ s ≡ b ++ 10 ∷ t → (a ≡ b) × (s ≡ t)
first_line [] [] s t ha hb e = (refl, tail_eq e)
first_line [] (d ∷ b) s t ha hb e = absurd (cc (hb.0, e))
first_line (c ∷ a) [] s t ha hb e = absurd (cc (ha.0, e))
first_line (c ∷ a) (d ∷ b) s t ha hb e =
    let (p, q) = first_line a b s t ha.1 hb.1 (tail_eq e) in (cc (e, p), q)

-- The last line of a text.
last_line : (a b s t : Text) → OneLine s → OneLine t → a ++ 10 ∷ s ≡ b ++ 10 ∷ t → (a ≡ b) × (s ≡ t)
last_line [] [] s t hs ht e = (refl, tail_eq e)
last_line [] (d ∷ b) s t hs ht e = absurd (no_break_inside b t (subst OneLine (tail_eq e) hs))
last_line (c ∷ a) [] s t hs ht e = absurd (no_break_inside a s (subst OneLine (sym (tail_eq e)) ht))
last_line (c ∷ a) (d ∷ b) s t hs ht e =
    let (p, q) = last_line a b s t hs ht (tail_eq e) in (cc (e, p), q)

line_append : (k v rest : Text) → key_line k v ++ rest ≡ (k ++ b'=' ∷ v) ++ 10 ∷ rest
unfolding key_line
line_append k v rest = simp append_assoc

cancel_front : (k s t : Text) → k ++ s ≡ k ++ t → s ≡ t
cancel_front [] s t e = e
cancel_front (c ∷ k) s t e = cancel_front k s t (tail_eq e)

-- One line with a known key, in front of others.
line_inv :
    (k v w s t : Text)
    → OneLine k
    → OneLine v
    → OneLine w
    → key_line k v ++ s ≡ key_line k w ++ t
    → (v ≡ w) × (s ≡ t)
line_inv k v w s t hk hv hw e =
    let (p, q) =
      first_line (k ++ b'=' ∷ v) (k ++ b'=' ∷ w) s t (OneLine-append k (b'=' ∷ v) hk (refl, hv))
        (OneLine-append k (b'=' ∷ w) hk (refl, hw))
        (sym (line_append k v s) ∙ e ∙ line_append k w t) in
    (tail_eq (cancel_front k (b'=' ∷ v) (b'=' ∷ w) p), q)

-- The last two lines, of which the second value is one line and the first may be anything.
last_lines_inv :
    (k l v v' w w' : Text)
    → OneLine l
    → OneLine w
    → OneLine w'
    → key_line k v ++ key_line l w ≡ key_line k v' ++ key_line l w'
    → (v ≡ v') × (w ≡ w')
last_lines_inv k l v v' w w' hl hw hw' e =
    let (whole, _) =
      last_line ((k ++ b'=' ∷ v) ++ 10 ∷ (l ++ b'=' ∷ w))
        ((k ++ b'=' ∷ v') ++ 10 ∷ (l ++ b'=' ∷ w')) [] [] tt tt
        (sym (two_lines k l v w) ∙ e ∙ two_lines k l v' w') in
    let (p, q) =
      last_line (k ++ b'=' ∷ v) (k ++ b'=' ∷ v') (l ++ b'=' ∷ w) (l ++ b'=' ∷ w')
        (OneLine-append l (b'=' ∷ w) hl (refl, hw)) (OneLine-append l (b'=' ∷ w') hl (refl, hw'))
        whole in
    (
      tail_eq (cancel_front k (b'=' ∷ v) (b'=' ∷ v') p),
      tail_eq (cancel_front l (b'=' ∷ w) (b'=' ∷ w') q),
    )
  where
    two_lines :
        (k l v w : Text)
        → key_line k v ++ key_line l w ≡ ((k ++ b'=' ∷ v) ++ 10 ∷ (l ++ b'=' ∷ w)) ++ 10 ∷ []
    two_lines k l v w = unfold key_line in simp append_assoc

labels : OneLine (text "tree") × (OneLine (text "env_fp") × OneLine (text "cmd"))
unfolding text
labels = ground arith

-- Equal key texts come from one tree, one environment, one directory and one command, where the
-- hashes and the commands are one line each; the directory may be any text.
pub key_text_injective :
    (s t : State) (cwd cwd' cmd cmd' : Text)
    → OneLine s.tree
    → OneLine t.tree
    → OneLine s.env_fp
    → OneLine t.env_fp
    → OneLine cmd
    → OneLine cmd'
    → key_text s cwd cmd ≡ key_text t cwd' cmd'
    → (s.tree ≡ t.tree) × (s.env_fp ≡ t.env_fp) × (cwd ≡ cwd') × (cmd ≡ cmd')
unfolding key_text
key_text_injective s t cwd cwd' cmd cmd' st tt' se te c c' e =
    let (lt, (le, lc)) = labels in
    let versions = cancel_front (key_line (text "v") key_version) _ _ e in
    let (tree, e1) = line_inv (text "tree") s.tree t.tree _ _ lt st tt' versions in
    let (env, e2) = line_inv (text "env_fp") s.env_fp t.env_fp _ _ le se te e1 in
    let (dirs, cmds) = last_lines_inv (text "cwd") (text "cmd") cwd cwd' cmd cmd' lc c c' e2 in
    (tree, env, dirs, cmds)

-- Two commands have one key only at one tree, in one environment, in one directory, and with one
-- normal form, provided that the digests of the two key texts do not collide and that the hashes
-- are one line each.
pub key_injective :
    (digest : Text → Text) (s t : State) (cwd cwd' cmd cmd' : Text)
    → OneLine s.tree
    → OneLine t.tree
    → OneLine s.env_fp
    → OneLine t.env_fp
    → (digest (key_text s cwd (normalize_command cmd))
          ≡ digest (key_text t cwd' (normalize_command cmd'))
        → key_text s cwd (normalize_command cmd) ≡ key_text t cwd' (normalize_command cmd'))
    → key digest s cwd (normalize_command cmd) ≡ key digest t cwd' (normalize_command cmd')
    → (s.tree ≡ t.tree)
      × (s.env_fp ≡ t.env_fp)
      × (cwd ≡ cwd')
      × (normalize_command cmd ≡ normalize_command cmd')
unfolding key
key_injective digest s t cwd cwd' cmd cmd' st tt' se te no_collision e =
    key_text_injective s t cwd cwd' (normalize_command cmd) (normalize_command cmd') st tt' se te
      (normalize_command-OneLine cmd) (normalize_command-OneLine cmd')
      (no_collision (tail_eq (cancel_front key_version _ _ e)))
