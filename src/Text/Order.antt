-- ===== src/Text/Order.antt =====
-- Sorted texts without repetition (a `seen` map and `sort.Strings`), and decimal numbers.
use fasthack.Prelude.{
  ℕ, zero, suc, ◌+◌, ◌/◌, ◌%◌, Bool, true, false, List, [], ◌∷◌, ◌++◌, ltb, ◌==◌, if◌then◌else◌,
}
use fasthack.Text.{Text, text_eq}

-- a < b on strings: code points stand in the order of their UTF-8 bytes
unfoldable pub text_less : Text → Text → Bool
text_less s [] = false
text_less [] (d ∷ t) = true
text_less (c ∷ s) (d ∷ t) = if c == d then text_less s t else ltb c d

-- A text put in its place, unless it is there already.
unfoldable pub insert : Text → List Text → List Text
insert p [] = p ∷ []
insert p (q ∷ qs) =
    let later = q ∷ insert p qs in
    if text_eq p q then q ∷ qs else if text_less p q then p ∷ q ∷ qs else later

-- The distinct texts in their order.
unfoldable pub sorted : List Text → List Text
sorted [] = []
sorted (p ∷ ps) = insert p (sorted ps)

unfoldable pub digits_onto : ℕ → ℕ → Text → Text
digits_onto zero n digits = digits
digits_onto (suc fuel) n digits =
    let more = digits_onto fuel (n / 10) ((b'0' + n % 10) ∷ digits) in
    if n == 0 then digits else more

-- strconv.Itoa of a number that is not negative; the number is fuel enough.
unfoldable pub itoa : ℕ → Text
itoa n = if n == 0 then b'0' ∷ [] else digits_onto n n []

unfoldable pub escaped : Text → Text
escaped [] = []
escaped (c ∷ s) =
    if c == b'"'
    then b'\\' ∷ c ∷ escaped s
    else if c == b'\\'
    then b'\\' ∷ c ∷ escaped s
    else c ∷ escaped s

-- strconv.Quote of a text whose runes are all printable
unfoldable pub quote : Text → Text
quote s = b'"' ∷ escaped s ++ b'"' ∷ []
