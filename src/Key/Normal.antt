-- ===== src/Key/Normal.antt =====
-- The normal form of a command (NormalizeCommand of internal/hp/key.go).
use fasthack.Prelude.{
  ℕ, ◌≡◌, refl, sym, ◌∙◌, ap, inl, inr, true, false, List, [], ◌∷◌, ◌++◌, append_assoc, append-nil,
  arith, ◌==◌, Bool-cases, All,
}
use fasthack.Text.{Text, is_space}
use fasthack.Key.{keep_field, fields_from, fields, join_fields, normalize_command}

-- All white space is alike: a line break, which separates two commands, is a space.
fields_from-space :
    (field a b : Text) (c d : ℕ)
    → is_space c ≡ true
    → is_space d ≡ true
    → fields_from field (a ++ c ∷ b) ≡ fields_from field (a ++ d ∷ b)
unfolding fields_from
fields_from-space field [] b c d hc hd = rw (hc, hd) refl
fields_from-space field (x ∷ a) b c d hc hd =
    ground
      (arith, fields_from-space [] a b c d hc hd, fields_from-space (field ++ x ∷ []) a b c d hc hd)

-- Commands that differ in one white space character have one normal form.
pub normalize_command-space :
    (a b : Text) (c d : ℕ)
    → is_space c ≡ true
    → is_space d ≡ true
    → normalize_command (a ++ c ∷ b) ≡ normalize_command (a ++ d ∷ b)
unfolding normalize_command fields
normalize_command-space a b c d hc hd = ap join_fields (fields_from-space [] a b c d hc hd)

abbrev NoSpace : Text → Type 0
NoSpace = All (λ c. is_space c ≡ false)

-- A field is not empty and has no white space.
abbrev IsField : Text → Type 0
IsField [] = ⊥
IsField (c ∷ f) = NoSpace (c ∷ f)

NoSpace-append : (s t : Text) → NoSpace s → NoSpace t → NoSpace (s ++ t)
NoSpace-append [] t hs ht = ht
NoSpace-append (c ∷ s) t hs ht = (hs.0, NoSpace-append s t hs.1 ht)

keep_field-IsField :
    (f : Text) (fs : List Text) → NoSpace f → All IsField fs → All IsField (keep_field f fs)
keep_field-IsField [] fs h hs = hs
keep_field-IsField (c ∷ f) fs h hs = (h, hs)

fields_from-IsField : (f s : Text) → NoSpace f → All IsField (fields_from f s)
unfolding fields_from
fields_from-IsField f [] h = keep_field-IsField f [] h tt
fields_from-IsField f (c ∷ s) h = elim (Bool-cases (is_space c)) [
  | inl b ↦ rw b (keep_field-IsField f (fields_from [] s) h (fields_from-IsField [] s tt))
  | inr b ↦ rw b (fields_from-IsField (f ++ c ∷ []) s (NoSpace-append f (c ∷ []) h (b, tt)))
]

-- A word without white space is read into the field.
fields_from-word : (f w s : Text) → NoSpace w → fields_from f (w ++ s) ≡ fields_from (f ++ w) s
unfolding fields_from
fields_from-word f [] s h = rw append-nil refl
fields_from-word f (c ∷ w) s h = rw h.0 (fields_from-word (f ++ c ∷ []) w s h.1 ∙ simp append_assoc)

keep_field-cons : (f : Text) (fs : List Text) → IsField f → keep_field f fs ≡ f ∷ fs
keep_field-cons [] fs h = absurd h
keep_field-cons (c ∷ f) fs h = refl

IsField-NoSpace : (f : Text) → IsField f → NoSpace f
IsField-NoSpace [] h = absurd h
IsField-NoSpace (c ∷ f) h = h

fields_from-field : (f : Text) → IsField f → fields_from [] f ≡ f ∷ []
unfolding fields_from
fields_from-field f h =
    ap (fields_from []) (sym (append-nil f))
    ∙ fields_from-word [] f [] (IsField-NoSpace f h)
    ∙ keep_field-cons f [] h

fields_from-field_space :
    (f s : Text) → IsField f → fields_from [] (f ++ b' ' ∷ s) ≡ f ∷ fields_from [] s
unfolding fields_from is_space
fields_from-field_space f s h =
    fields_from-word [] f (b' ' ∷ s) (IsField-NoSpace f h) ∙ keep_field-cons f (fields_from [] s) h

-- Fields joined by spaces are the fields again.
fields-join_fields : (fs : List Text) → All IsField fs → fields (join_fields fs) ≡ fs
unfolding fields join_fields
fields-join_fields [] h = unfold fields_from in refl
fields-join_fields (f ∷ []) h = fields_from-field f h.0
fields-join_fields (f ∷ g ∷ fs) h =
    fields_from-field_space f (join_fields (g ∷ fs)) h.0
    ∙ ap (◌∷◌ f) (fields-join_fields (g ∷ fs) h.1)

-- Normalising twice is normalising once.
pub normalize_command_idem :
    (cmd : Text) → normalize_command (normalize_command cmd) ≡ normalize_command cmd
unfolding normalize_command
normalize_command_idem cmd =
    ap join_fields
      (fields-join_fields (fields cmd) (unfold fields in fields_from-IsField [] cmd tt))

-- No line break.
abbrev pub OneLine : Text → Type 0
OneLine = All (λ c. (c == 10) ≡ false)

pub OneLine-append : (s t : Text) → OneLine s → OneLine t → OneLine (s ++ t)
OneLine-append [] t hs ht = ht
OneLine-append (c ∷ s) t hs ht = (hs.0, OneLine-append s t hs.1 ht)

NoSpace-OneLine : (s : Text) → NoSpace s → OneLine s
unfolding is_space
NoSpace-OneLine [] h = tt
NoSpace-OneLine (c ∷ s) h = (ground arith, NoSpace-OneLine s h.1)

join_fields-OneLine : (fs : List Text) → All IsField fs → OneLine (join_fields fs)
unfolding join_fields
join_fields-OneLine [] h = tt
join_fields-OneLine (f ∷ []) h = NoSpace-OneLine f (IsField-NoSpace f h.0)
join_fields-OneLine (f ∷ g ∷ fs) h =
    OneLine-append f (b' ' ∷ join_fields (g ∷ fs)) (NoSpace-OneLine f (IsField-NoSpace f h.0))
      (refl, join_fields-OneLine (g ∷ fs) h.1)

-- A normal form is one line.
pub normalize_command-OneLine : (cmd : Text) → OneLine (normalize_command cmd)
unfolding normalize_command fields
normalize_command-OneLine cmd =
    join_fields-OneLine (fields_from [] cmd) (fields_from-IsField [] cmd tt)
