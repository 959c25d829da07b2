-- ===== src/Scope/Conflict.antt =====
-- `scopePathsConflict` of internal/hp/scope.go against the order of paths by containment.
use fasthack.Prelude.{◌≡◌, ◌↔◌, ◌⊎◌, inl, inr, true, ◌++◌, arith, Bool-cases}
use fasthack.Text.{Text, text_eq, has_prefix}
use fasthack.Text.Laws.{text_eq_sound, text_eq_complete, has_prefix-rest, has_prefix-append}
use fasthack.Text.PathName.{slash, dot, clean}
use fasthack.Scope.Paths.{conflict_clean, scope_paths_conflict}

-- Below the directory `p`.
abbrev pub IsBelow : Text → Text → Type 0
IsBelow p q = (r : Text) × (q ≡ (p ++ slash) ++ r)

-- One of the two is the root, they are one path, or one is below the other.
abbrev pub Overlap : Text → Text → Type 0
Overlap s c = (s ≡ dot) ⊎ (c ≡ dot) ⊎ (s ≡ c) ⊎ IsBelow s c ⊎ IsBelow c s

module _ (s c : Text) where
  conflict-Overlap : conflict_clean s c ≡ true → Overlap s c
  unfolding conflict_clean
  conflict-Overlap h = elim (Bool-cases (text_eq s dot)) [
    | inl a ↦ inl (text_eq_sound s dot a)
    | inr a ↦ elim (Bool-cases (text_eq c dot)) [
      | inl b ↦ inr (inl (text_eq_sound c dot b))
      | inr b ↦ elim (Bool-cases (text_eq s c)) [
        | inl e ↦ inr (inr (inl (text_eq_sound s c e)))
        | inr e ↦ elim (Bool-cases (has_prefix (s ++ slash) c)) [
          | inl p ↦ inr (inr (inr (inl (has_prefix-rest (s ++ slash) c p))))
          | inr p ↦ inr (inr (inr (inr (has_prefix-rest (c ++ slash) s (ground arith)))))
        ]
      ]
    ]
  ]

  Overlap-conflict : Overlap s c → conflict_clean s c ≡ true
  unfolding conflict_clean
  Overlap-conflict (inl e) = ground (arith, text_eq_complete s dot e)
  Overlap-conflict (inr (inl e)) = ground (arith, text_eq_complete c dot e)
  Overlap-conflict (inr (inr (inl e))) = ground (arith, text_eq_complete s c e)
  Overlap-conflict (inr (inr (inr (inl (r, e))))) =
      let p : has_prefix (s ++ slash) c ≡ true = rw e (has_prefix-append (s ++ slash) r) in
      ground arith
  Overlap-conflict (inr (inr (inr (inr (r, e))))) =
      let p : has_prefix (c ++ slash) s ≡ true = rw e (has_prefix-append (c ++ slash) r) in
      ground arith

-- Two paths conflict exactly if, once clean, one of them is the root, they are equal, or one is the
-- other followed by a slash and more: a directory and what it contains, never two names of which one
-- starts the other.
pub scope_paths_conflict-Overlap_iff :
    (scope changed : Text)
    → (scope_paths_conflict scope changed ≡ true) ↔ Overlap (clean scope) (clean changed)
unfolding scope_paths_conflict
scope_paths_conflict-Overlap_iff scope changed =
    (conflict-Overlap (clean scope) (clean changed), Overlap-conflict (clean scope) (clean changed))
