-- ===== src/Scope/Run.antt =====
-- internal/hp/scope.go: `ScopeMatchAt` with all that it calls open, for tests.
use fasthack.Text.{
  text, text_eq, is_empty, in_set, has_rune, contains_any, has_prefix, contains, ends_with, before,
  after, trim_last, trim_left, trim_right, trim_space, is_space, is_blank, in_tens, is_digit,
  to_lower,
}
use fasthack.Text.Scan.{scan}
use fasthack.Text.PathName.{
  split_parts, join_parts, clean_part, clean_parts, rev_onto, is_abs, clean, join, all_slashes,
  strip_slashes, last_part, base, last_dot, ext,
}
use fasthack.Text.Order.{text_less, insert, sorted, digits_onto, itoa}
use fasthack.Policy.Syntax.{
  substitution_step, has_command_substitution, split_single, split_double, split_unquoted,
  split_step, split_segments, duplicates_fd, lex_redirect, lex_unquoted, lex_step, tokenize_segment,
}
use fasthack.Policy.Words.{is_flag, cmd_base, is_letter, name_ok, is_env_assignment, strip_env}
use fasthack.Scope.{Repo, ScopeDecision}
use fasthack.Scope.Tables.{
  self_contained_readers, scope_refuse_heads, scope_stdin_filters, scope_path_exts,
  scope_global_files, scope_global_prefixes,
}
use fasthack.Scope.Paths.{
  conflict_clean, scope_paths_conflict, scope_touches_changed, collides, collides_with_changed,
  exists_under, escapes, cwd_inside, scope_clean_cwd, is_hex, all_hex, is_tree_name, any_prefix,
  is_global, first_globally_relevant, strip_node_id, lower, looks_like_repo_path, split_nul,
  clean_entries, scope_changed_paths,
}
use fasthack.Scope.Args.{
  argument, word_scope, cand_of, refused_word, reads_pipe, union, all_blank, carries_path,
  flag_scope, rel_scope, cand_scope, token_scope_path, args_scope, words_scope, lexed_scope,
  segment_scope_paths, segments_scope, command_scope_paths,
}
use fasthack.Scope.Match.{
  words_head, lexed_head, segments_head, scope_self_contained_head, first_conflict, conflict_in,
  join_spaces, refusal, disjoint, scoped, unless_global, match_changed, match_trees, match_head,
  match_cwd, scope_match_at,
}
use fasthack.Text.{Text}

unfoldable pub run_scope_match_at : Repo → Text → Text → Text → Text → ScopeDecision
unfolding text text_eq is_empty in_set has_rune contains_any has_prefix contains ends_with before
    after trim_last trim_left trim_right trim_space is_space is_blank in_tens is_digit to_lower scan
    split_parts join_parts clean_part clean_parts rev_onto is_abs clean join all_slashes
    strip_slashes last_part base last_dot ext text_less insert sorted digits_onto itoa
    substitution_step has_command_substitution split_single split_double split_unquoted split_step
    split_segments duplicates_fd lex_redirect lex_unquoted lex_step tokenize_segment is_flag
    cmd_base is_letter name_ok is_env_assignment strip_env self_contained_readers scope_refuse_heads
    scope_stdin_filters scope_path_exts scope_global_files scope_global_prefixes conflict_clean
    scope_paths_conflict scope_touches_changed collides collides_with_changed exists_under escapes
    cwd_inside scope_clean_cwd is_hex all_hex is_tree_name any_prefix is_global
    first_globally_relevant strip_node_id lower looks_like_repo_path split_nul clean_entries
    scope_changed_paths argument word_scope cand_of refused_word reads_pipe union all_blank
    carries_path flag_scope rel_scope cand_scope token_scope_path args_scope words_scope lexed_scope
    segment_scope_paths segments_scope command_scope_paths words_head lexed_head segments_head
    scope_self_contained_head first_conflict conflict_in join_spaces refusal disjoint scoped
    unless_global match_changed match_trees match_head match_cwd scope_match_at
run_scope_match_at repo recorded_tree current_tree cmd cwd_rel =
    scope_match_at repo recorded_tree current_tree cmd cwd_rel
