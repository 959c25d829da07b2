-- ===== src/Hook/Tests.antt =====
-- Tests of the quoting of cmd/hindsight/hook.go.
use fasthack.Prelude.{◌≡◌, refl, false, some, List, [], ◌∷◌, map}
use fasthack.Text.{Text, codes}
use fasthack.Policy.Syntax.{tokenize_segment}
use fasthack.Prelude.{ℕ, true, ◌⊎◌}
use fasthack.Text.{is_empty}
use fasthack.Text.PathName.{
  join, clean, split_parts, clean_part, clean_parts, rev_onto, join_parts, is_abs,
}
use fasthack.Text.Order.{itoa, digits_onto}
use fasthack.Text.Base64.{base64, bytes_of, rune_bytes, continued, digit_of}
use fasthack.Policy.Run.{run_classify}
use fasthack.Dict.{get}
use fasthack.Key.{State, fields_from, fields, join_fields, normalize_command}
use fasthack.Record.{decision_hit}
use fasthack.Fastpath.{always_cheap, first_word, known_fast}
use fasthack.Daemon.{LookupResp}
use fasthack.Hook.Flow.{
  Surroundings, HookOutcome, rewrites, hash_of, without_prefix, blob_name, blob_path,
  served_command, served_note, request, intercept, cmd_hook,
}
use fasthack.Hook.Asked.{IsAsked, cmd_hook-IsAsked}
use fasthack.Hook.{escape_quotes, shell_quote}
use fasthack.Hook.Quoting.{quoted_words, word, tokenize_segment-quoted_words}

quoted : shell_quote (codes "it's; $(x)") ≡ codes "'it'\\''s; $(x)'"
unfolding shell_quote escape_quotes
quoted = refl

abbrev hostile : List Text
hostile = codes "/home/o'brien/a b" ∷ codes "$(rm -rf /); `date` > x" ∷ []

tokenize_segment-quoted_words_example :
    tokenize_segment (quoted_words hostile) ≡ some (map word hostile, false)
tokenize_segment-quoted_words_example = tokenize_segment-quoted_words hostile

abbrev hit_answer : LookupResp
hit_answer = record {
  decision = codes "HIT";
  exit_code = 1;
  stdout_blob = codes "sha256:abcd";
  stderr_blob = codes "sha256:e";
  source_agent = codes "a1";
  duration_ms = 900;
  tier = 0;
  scope_reason = [];
  waited_ms = 0;
}

abbrev measured : State
measured = record { tree = codes "t"; env_fp = codes "e"; env_complete = true }

abbrev around : Surroundings
around = record {
  enabled = true;
  serve_enabled = true;
  agent = codes "a2";
  forced = [];
  payload = some (codes "pytest -q");
  memo = [];
  floor = 500;
  root = some (codes "/repo");
  state = some measured;
  cwd_rel = codes ".";
  home = codes "/h";
  self = some (codes "/bin/hindsight");
  digest = λ t. t;
  answer = λ req. some hit_answer;
}

unfoldable run_hook : ℕ → Surroundings → HookOutcome
unfolding run_classify cmd_hook intercept request always_cheap first_word known_fast get
    decision_hit
run_hook fuel w = cmd_hook fuel w

abbrev served : Text
served = served_command (codes "/h") hit_answer

around-served : cmd_hook 2 around ≡ rewrites served (served_note hit_answer)
unfolding run_hook fields_from fields join_fields normalize_command
around-served = refl

printed : served ≡ codes "cat '/h/blobs/ab/abcd'; cat '/h/blobs/e' >&2; exit 1"
unfolding run_hook served_command blob_path blob_name hash_of without_prefix shell_quote
    escape_quotes itoa digits_onto join clean split_parts clean_part clean_parts rev_onto join_parts
    is_abs
printed = refl

encoded : base64 (bytes_of (codes "pytest é")) ≡ codes "cHl0ZXN0IMOp"
unfolding base64 bytes_of rune_bytes continued digit_of
encoded = refl

cmd_hook-IsAsked_example :
    (true ≡ true)
    × (cmd : Text) × (some (codes "pytest -q") ≡ some cmd)
    × (((is_empty [] ≡ false) × (served ≡ [])) ⊎ IsAsked 2 around cmd served)
cmd_hook-IsAsked_example = cmd_hook-IsAsked 2 around served (served_note hit_answer) around-served
