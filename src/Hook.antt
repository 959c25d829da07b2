-- ===== src/Hook.antt =====
-- cmd/hindsight/hook.go: the quoting of the commands that the hook writes.
pub mod Quoting
pub mod Segments
pub mod Flow
pub mod Asked
mod EndToEnd
mod EndToEndTests
mod Tests
use fasthack.Prelude.{ℕ, List, [], ◌∷◌, ◌++◌, ◌==◌, if◌then◌else◌}
use fasthack.Text.{Text, codes}

-- strings.ReplaceAll(s, "'", `'\''`)
unfoldable pub escape_quotes : Text → Text
escape_quotes [] = []
escape_quotes (c ∷ s) = if c == b'\'' then codes "'\\''" ++ escape_quotes s else c ∷ escape_quotes s

-- shellQuote
unfoldable pub shell_quote : Text → Text
shell_quote s = b'\'' ∷ escape_quotes s ++ b'\'' ∷ []
