-- ===== src/Record/Output/Tests.antt =====
-- A buffer of four bytes.
use fasthack.Prelude.{◌≡◌, ◌≤◌, refl, [], ◌∷◌, ltb, length, take}
use fasthack.Text.{codes}
use fasthack.Record.Output.{write, write_all, empty_buffer, joined, write_all_bounds}

cut : (write_all (empty_buffer 4) (codes "abc" ∷ codes "def" ∷ codes "g" ∷ [])).buf ≡ codes "abcd"
unfolding write_all write
cut = refl

write_all_bounds_example :
    ((write_all (empty_buffer 4) (codes "abc" ∷ codes "de" ∷ [])).buf
      ≡ take 4 (joined (codes "abc" ∷ codes "de" ∷ [])))
    × (length (write_all (empty_buffer 4) (codes "abc" ∷ codes "de" ∷ [])).buf ≤ 4)
    × ((write_all (empty_buffer 4) (codes "abc" ∷ codes "de" ∷ [])).truncated
        ≡ ltb 4 (length (joined (codes "abc" ∷ codes "de" ∷ []))))
write_all_bounds_example = write_all_bounds 4 (codes "abc" ∷ codes "de" ∷ [])
