-- ===== src/Policy/Readers.antt =====
-- internal/hp/policy.go: the heads that classifyHead serves, in a table of its own.
use fasthack.Prelude.{
  ℕ, zero, suc, ◌≡◌, ◌≢◌, ◌⊎◌, refl, ◌∙◌, ◌++◌, if◌then◌else◌, subst, sym, ap, inl, inr, Bool, true,
  false, ◌&&◌, none, some, List, [], ◌∷◌, String, arith, Bool-cases, Option-cases, All, Any,
}
use mathlib.Core.Option.{some-injective}
use fasthack.Text.{Text, text, text_eq, is_empty, in_set}
use fasthack.Text.Laws.{text_eq_sound}
use fasthack.Policy.Tables.{
  mutation_heads, metadata_heads, install_heads, read_heads, build_heads, git_read_subs,
  git_mutation_subs, git_non_hermetic_subs, go_subs, cargo_subs, npm_subs,
}
use fasthack.Policy.Syntax.{Token}
use fasthack.Policy.Words.{rest, first_subcommand, seg_has_flag, long_listing}
use fasthack.Policy.Heads.{
  passthrough, record_only, serve, Verdict, SedFlag, in_place, quiet, other, git_sub,
  classify_git_sub, classify_git, sed_flag, sed_loop, classify_sed, classify_black, classify_sub,
  classify_early, classify_late, delegate, through, install_verdict, classify_head,
}
use fasthack.Policy.Writers.{head_not_mutation, head_not_metadata}

-- The subcommand reads the repository, and neither writes it nor reaches another one.
pub record ReadsGit (sub : Text) : Type 0 where
  pub listed : in_set git_read_subs sub ≡ true
  pub local : in_set git_non_hermetic_subs sub ≡ false
  pub pure : in_set git_mutation_subs sub ≡ false

-- sed prints what it is told to, and no flag asks for a file to be rewritten.
pub record PrintsOnly (args : List Token) : Type 0 where
  pub quietly : Any (λ t. sed_flag t ≡ quiet) args
  pub elsewhere : All (λ t. sed_flag t ≢ in_place) args

-- The head, with the words of its segment, is one that is listed as reading or building.
pub data IsReader (toks : List Token) : Text → Type 0 where
  git : ReadsGit (git_sub false (rest toks)) → IsReader toks (text "git")
  sed : PrintsOnly (rest toks) → IsReader toks (text "sed")
  black : seg_has_flag toks (text "--check") ≡ true → IsReader toks (text "black")
  go : in_set go_subs (first_subcommand toks) ≡ true → IsReader toks (text "go")
  cargo : in_set cargo_subs (first_subcommand toks) ≡ true → IsReader toks (text "cargo")
  npm : in_set npm_subs (first_subcommand toks) ≡ true → IsReader toks (text "npm")
  plain :
      (head : Text)
      → (in_set read_heads head ≡ true) ⊎ (in_set build_heads head ≡ true)
      → in_set mutation_heads head ≡ false
      → in_set metadata_heads head ≡ false
      → in_set install_heads head ≡ false
      → (text_eq head (text "ls") && long_listing (rest toks)) ≡ false
      → IsReader toks head
  runs :
      (head : Text)
      → in_set install_heads head ≡ true
      → is_empty (delegate toks) ≡ false
      → IsReader toks (delegate toks)
      → IsReader toks head

git-ReadsGit : (sub : Text) → (classify_git_sub sub).0 ≡ serve → ReadsGit sub
unfolding classify_git_sub
git-ReadsGit sub h = record { listed = ground arith; local = ground arith; pure = ground arith }

sub-listed :
    (head : Text) (subs : List String) (sub : Text)
    → (classify_sub head subs sub).0 ≡ serve
    → in_set subs sub ≡ true
unfolding classify_sub
sub-listed head subs sub h = ground arith

black-checks :
    (toks : List Token)
    → (classify_black toks).0 ≡ serve
    → seg_has_flag toks (text "--check") ≡ true
unfolding classify_black
black-checks toks h = ground arith

late-listed :
    (head : Text)
    → (classify_late head).0 ≡ serve
    → (in_set read_heads head ≡ true) ⊎ (in_set build_heads head ≡ true)
unfolding classify_late
late-listed head h = elim (Bool-cases (in_set read_heads head)) [
  | inl e ↦ inl e
  | inr e ↦ elim (Bool-cases (in_set build_heads head)) [
    | inl f ↦ inr f
    | inr f ↦ absurd (cc (rw (e, f) at h))
  ]
]

-- What is known of the arguments of a sed that is served, `saw` if a flag before them asked for it.
abbrev Prints : Bool → List Token → Type 0
Prints saw toks =
    ((saw ≡ true) ⊎ Any (λ t. sed_flag t ≡ quiet) toks) × All (λ t. sed_flag t ≢ in_place) toks

sed_step :
    (saw : Bool) (t : Token) (toks : List Token) (f : SedFlag)
    → sed_flag t ≡ f
    → ((sed_loop saw toks).0 ≡ serve → Prints saw toks)
    → ((sed_loop true toks).0 ≡ serve → Prints true toks)
    → (elim f as (λ x. Verdict) [
      | in_place ↦ (record_only, text "mutation: sed -i")
      | quiet ↦ sed_loop true toks
      | other ↦ sed_loop saw toks
    ]).0
      ≡ serve
    → Prints saw (t ∷ toks)
sed_step saw t toks in_place e same seen h = absurd (cc h)
sed_step saw t toks quiet e same seen h = (inr (inl e), ((λ i. cc (e, i)), (seen h).1))
sed_step saw t toks other e same seen h = (later (same h).0, ((λ i. cc (e, i)), (same h).1))
  where
    later :
        (saw ≡ true) ⊎ Any (λ u. sed_flag u ≡ quiet) toks
        → (saw ≡ true) ⊎ Any (λ u. sed_flag u ≡ quiet) (t ∷ toks)
    later (inl s) = inl s
    later (inr q) = inr (inr q)

sed_loop-Prints : (saw : Bool) (toks : List Token) → (sed_loop saw toks).0 ≡ serve → Prints saw toks
unfolding sed_loop
sed_loop-Prints true [] h = (inl refl, tt)
sed_loop-Prints false [] h = absurd (cc h)
sed_loop-Prints saw (t ∷ toks) h =
    sed_step saw t toks (sed_flag t) refl (sed_loop-Prints saw toks) (sed_loop-Prints true toks) h

sed-PrintsOnly : (toks : List Token) → (classify_sed toks).0 ≡ serve → PrintsOnly (rest toks)
unfolding classify_sed
sed-PrintsOnly toks h =
    elim (sed_loop-Prints false (rest toks) h).0 as (λ x. PrintsOnly (rest toks)) [
      | inl s ↦ absurd (cc s)
      | inr q ↦ record { quietly = q; elsewhere = (sed_loop-Prints false (rest toks) h).1 }
    ]

some-policy : (v w : Verdict) → some v ≡ some w → v.0 ≡ w.0
some-policy v w e = ap (λ (x : Verdict). x.0) (some-injective _ _ e)

-- The heads that are decided first.
module _ (head reason : Text) (toks : List Token) where
  named : (s : String) → text_eq head (text s) ≡ true → IsReader toks (text s) → IsReader toks head
  named s e i = subst (IsReader toks) (sym (text_eq_sound head (text s) e)) i

  early-IsReader : classify_early head toks ≡ some (serve, reason) → IsReader toks head
  unfolding classify_early classify_git
  early-IsReader r = elim (Bool-cases (text_eq head (text "git"))) [
    | inl e ↦
        named "git" e (git (git-ReadsGit (git_sub false (rest toks)) (some-policy _ _ (rw e at r))))
    | inr e ↦ elim (Bool-cases (text_eq head (text "sed"))) [
      | inl f ↦ named "sed" f (sed (sed-PrintsOnly toks (some-policy _ _ (rw (e, f) at r))))
      | inr f ↦ elim (Bool-cases (text_eq head (text "black"))) [
        | inl g ↦ named "black" g (black (black-checks toks (some-policy _ _ (rw (e, f, g) at r))))
        | inr g ↦ elim (Bool-cases (text_eq head (text "go"))) [
          | inl i ↦
              named "go" i (go (sub-listed head go_subs _ (some-policy _ _ (rw (e, f, g, i) at r))))
          | inr i ↦ elim (Bool-cases (text_eq head (text "cargo"))) [
            | inl j ↦
                named "cargo" j
                  (cargo (sub-listed head cargo_subs _ (some-policy _ _ (rw (e, f, g, i, j) at r))))
            | inr j ↦ npm_or_later (rw (e, f, g, i, j) at r)
          ]
        ]
      ]
    ]
  ]
    where
      npm_or_later :
          (if text_eq head (text "npm")
              then some (classify_sub head npm_subs (first_subcommand toks))
              else if in_set mutation_heads head
              then some (record_only, text "mutation: " ++ head)
              else if in_set metadata_heads head
              then some
                  (passthrough, text "prints file metadata the tree hash does not cover: " ++ head)
              else if text_eq head (text "ls") && long_listing (rest toks)
              then some
                  (passthrough, text "ls long format prints mtimes the tree hash does not cover")
              else none)
            ≡ some (serve, reason)
          → IsReader toks head
      npm_or_later q = elim (Bool-cases (text_eq head (text "npm"))) [
        | inl k ↦ named "npm" k (npm (sub-listed head npm_subs _ (some-policy _ _ (rw k at q))))
        | inr k ↦ ground arith
      ]

early-short :
    (head : Text) (toks : List Token)
    → classify_early head toks ≡ none
    → (text_eq head (text "ls") && long_listing (rest toks)) ≡ false
unfolding classify_early
early-short head toks h = ground arith

late-IsReader :
    (fuel : ℕ) (head reason : Text) (toks : List Token)
    → classify_head fuel head toks ≡ some (serve, reason)
    → classify_early head toks ≡ none
    → in_set install_heads head ≡ false
    → classify_late head ≡ (serve, reason)
    → IsReader toks head
late-IsReader fuel head reason toks r e i l =
    let m = head_not_mutation fuel head reason toks r in
    plain head (late-listed head (ap (λ (x : Verdict). x.0) l)) m
      (head_not_metadata fuel head reason toks m r) i (early-short head toks e)

pub head-IsReader :
    (fuel : ℕ) (head reason : Text) (toks : List Token)
    → classify_head fuel head toks ≡ some (serve, reason)
    → IsReader toks head
unfolding classify_head through install_verdict
head-IsReader zero head reason toks r = cc r
head-IsReader (suc fuel) head reason toks r = elim (Option-cases (classify_early head toks)) [
  | inr (v, e) ↦ early-IsReader head reason toks (e ∙ (rw (e, classify_head) at r))
  | inl e ↦ elim (Bool-cases (in_set install_heads head)) [
    | inr i ↦
        late-IsReader (suc fuel) head reason toks r e i
          (some-injective _ _ (rw (e, i, classify_head) at r))
    | inl i ↦ elim (Bool-cases (is_empty (delegate toks))) [
      | inl d ↦ absurd (cc (rw (e, i, d, classify_head) at r))
      | inr d ↦ elim (Option-cases (classify_head fuel (delegate toks) toks)) [
        | inl n ↦ absurd (cc (rw (e, i, d, n, classify_head) at r))
        | inr ((p, why), n) ↦ runs head i d (
            head-IsReader fuel (delegate toks) why toks
              (n ∙ ap (λ x. some (x, why)) (some-policy _ _ (rw (e, i, d, n, classify_head) at r))))
      ]
    ]
  ]
]
