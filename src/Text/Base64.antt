-- ===== src/Text/Base64.antt =====
-- The bytes of a text in UTF-8, and Go's base64.StdEncoding.
use fasthack.Prelude.{ℕ, ◌+◌, ◌-◌, ◌*◌, ◌/◌, ◌%◌, List, [], ◌∷◌, ◌++◌, ltb, ◌==◌, if◌then◌else◌}
use fasthack.Text.{Text}

-- A byte that continues a rune: six bits of it.
unfoldable pub continued : ℕ → ℕ
continued n = 0x80 + n % 64

unfoldable pub rune_bytes : ℕ → List ℕ
rune_bytes c =
    if ltb c 0x80
    then c ∷ []
    else if ltb c 0x800
    then (0xc0 + c / 64) ∷ continued c ∷ []
    else if ltb c 0x10000
    then (0xe0 + c / 4096) ∷ continued (c / 64) ∷ continued c ∷ []
    else (0xf0 + c / 262144) ∷ continued (c / 4096) ∷ continued (c / 64) ∷ continued c ∷ []

unfoldable pub bytes_of : Text → List ℕ
bytes_of [] = []
bytes_of (c ∷ s) = rune_bytes c ++ bytes_of s

-- The character for six bits.
unfoldable pub digit_of : ℕ → ℕ
digit_of n =
    if ltb n 26
    then b'A' + n
    else if ltb n 52
    then b'a' + n - 26
    else if ltb n 62
    then b'0' + n - 52
    else if n == 62
    then b'+'
    else b'/'

-- base64.StdEncoding.EncodeToString
unfoldable pub base64 : List ℕ → Text
base64 [] = []
base64 (a ∷ []) = digit_of (a / 4) ∷ digit_of (a % 4 * 16) ∷ b'=' ∷ b'=' ∷ []
base64 (a ∷ b ∷ []) =
    digit_of (a / 4) ∷ digit_of (a % 4 * 16 + b / 16) ∷ digit_of (b % 16 * 4) ∷ b'=' ∷ []
base64 (a ∷ b ∷ c ∷ bs) =
    digit_of (a / 4)
    ∷ digit_of (a % 4 * 16 + b / 16)
    ∷ digit_of (b % 16 * 4 + c / 64)
    ∷ digit_of (c % 64)
    ∷ base64 bs
