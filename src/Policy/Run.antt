-- ===== src/Policy/Run.antt =====
-- internal/hp/policy.go: `Classify` with all that it calls open, for tests.
use fasthack.Text.{
  text, text_eq, is_empty, in_set, has_rune, contains_any, has_prefix, contains, ends_with, before,
  is_space, is_blank, in_tens, is_digit,
}
use fasthack.Text.Scan.{scan}
use fasthack.Text.PathName.{all_slashes, strip_slashes, last_part, base}
use fasthack.Policy.Tables.{
  non_hermetic_heads, mutation_heads, read_heads, metadata_heads, build_heads, install_heads,
  git_read_subs, git_mutation_subs, git_non_hermetic_subs, pipe_shells, go_subs, cargo_subs,
  npm_subs,
}
use fasthack.Policy.Syntax.{
  substitution_step, has_command_substitution, split_single, split_double, split_unquoted,
  split_step, split_segments, duplicates_fd, lex_redirect, lex_unquoted, lex_step, tokenize_segment,
}
use fasthack.Policy.Words.{
  is_flag, cmd_base, is_letter, name_ok, is_env_assignment, strip_env, first_plain,
  first_subcommand, head_after, inner_head, any_is, seg_has_flag, long_listing, word_of, word_in,
  non_hermetic_word, plain_directory, changes_directory, is_cd, is_directory_change,
}
use fasthack.Policy.Heads.{
  to_string, git_sub, classify_git_sub, classify_git, sed_short, sed_body, sed_flag, sed_loop,
  classify_sed, classify_black, classify_sub, classify_early, classify_late, runs_inner, delegate,
  install_verdict, through, classify_head,
}
use fasthack.Policy.Classify.{
  classify_words, classify_toks, classify_lexed, classify_segment, count, classify_loop, conclude,
  classify,
}
use fasthack.Prelude.{ℕ, Option}
use fasthack.Text.{Text}
use fasthack.Policy.Heads.{Verdict}

unfoldable pub run_classify : ℕ → Text → Option Verdict
unfolding text text_eq is_empty in_set has_rune contains_any has_prefix contains ends_with before
    is_space is_blank in_tens is_digit scan all_slashes strip_slashes last_part base
    non_hermetic_heads mutation_heads read_heads metadata_heads build_heads install_heads
    git_read_subs git_mutation_subs git_non_hermetic_subs pipe_shells go_subs cargo_subs npm_subs
    substitution_step has_command_substitution split_single split_double split_unquoted split_step
    split_segments duplicates_fd lex_redirect lex_unquoted lex_step tokenize_segment is_flag
    cmd_base is_letter name_ok is_env_assignment strip_env first_plain first_subcommand head_after
    inner_head any_is seg_has_flag long_listing word_of word_in non_hermetic_word plain_directory
    changes_directory is_cd is_directory_change to_string git_sub classify_git_sub classify_git
    sed_short sed_body sed_flag sed_loop classify_sed classify_black classify_sub classify_early
    classify_late runs_inner delegate install_verdict through classify_head classify_words
    classify_toks classify_lexed classify_segment count classify_loop conclude classify
run_classify fuel cmd = classify fuel cmd
