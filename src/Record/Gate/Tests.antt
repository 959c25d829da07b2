-- ===== src/Record/Gate/Tests.antt =====
-- A run that may be served, and one that may not.
use fasthack.Prelude.{◌≡◌, refl, true, false, some}
use fasthack.Text.{text, text_eq, is_empty, codes}
use fasthack.Policy.Heads.{to_string}
use fasthack.Key.{State, equal}
use fasthack.Record.Gate.{Run, unchanged, servable_at, is_servable}

abbrev clean : State
clean = record { tree = codes "aa"; env_fp = codes "bb"; env_complete = true }

abbrev tests_run : Run
tests_run = record {
  policy = codes "SERVE";
  truncated = false;
  timed_out = false;
  before = clean;
  after = some clean;
  stdout_blob = codes "sha256:0a";
  stderr_blob = codes "sha256:0b";
  duration_ms = 1200;
  floor = 500;
}

served : is_servable tests_run ≡ true
unfolding is_servable servable_at unchanged equal text_eq to_string text is_empty
served = refl

edited :
    is_servable (record tests_run { after = some (record clean { tree = codes "cc" }) }) ≡ false
unfolding is_servable servable_at unchanged equal text_eq to_string text is_empty
edited = refl
