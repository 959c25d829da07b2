-- ===== src/Record/Output.antt =====
-- internal/hp/record.go: boundedBuffer. Bytes are numbers.
mod Tests
use fasthack.Prelude.{
  ℕ, zero, suc, ◌+◌, ◌-◌, ◌*◌, ◌≤◌, ◌<◌, ◌≡◌, refl, sym, ap, ◌∙◌, inl, inr, Bool, true, false, ◌||◌,
  List, [], ◌∷◌, ◌++◌, arith, ltb, if◌then◌else◌, Bool-cases, length, length-append, length-take,
  take, append-nil, append_assoc,
}

-- MaxOutputBytes
abbrev pub max_output_bytes : ℕ
max_output_bytes = 8388608

-- boundedBuffer
pub record BoundedBuffer : Type 0 where
  pub buf : List ℕ
  pub limit : ℕ
  pub truncated : Bool

-- boundedBuffer.Write; it reports the length of what it is given
unfoldable pub write : BoundedBuffer → List ℕ → BoundedBuffer × ℕ
write b p =
    let remaining = b.limit - length b.buf in
    (
      if ltb 0 remaining
          then (if ltb remaining (length p)
              then record b { buf = b.buf ++ take remaining p; truncated = true }
              else record b { buf = b.buf ++ p })
          else if ltb 0 (length p)
          then record b { truncated = true }
          else b,
      length p,
    )

unfoldable pub write_all : BoundedBuffer → List (List ℕ) → BoundedBuffer
write_all b [] = b
write_all b (p ∷ ps) = write_all (write b p).0 ps

abbrev pub empty_buffer : ℕ → BoundedBuffer
empty_buffer limit = record { buf = []; limit = limit; truncated = false }

unfoldable pub joined : List (List ℕ) → List ℕ
joined [] = []
joined (p ∷ ps) = p ++ joined ps

take-append_short :
    (n : ℕ) (xs ys : List ℕ) → length xs ≤ n → take n (xs ++ ys) ≡ xs ++ take (n - length xs) ys
take-append_short n [] ys h = ap (λ k. take k ys) (omega arith)
take-append_short zero (x ∷ xs) ys h = absurd (omega (arith, h))
take-append_short (suc n) (x ∷ xs) ys h =
    ap (λ zs. x ∷ zs)
      (take-append_short n xs ys (omega (arith, h)) ∙ ap (λ k. xs ++ take k ys) (omega arith))

take_all : (n : ℕ) (xs : List ℕ) → length xs ≤ n → take n xs ≡ xs
take_all zero [] h = refl
take_all zero (x ∷ xs) h = absurd (omega (arith, h))
take_all (suc n) [] h = refl
take_all (suc n) (x ∷ xs) h = ap (λ zs. x ∷ zs) (take_all n xs (omega (arith, h)))

take-append_long : (n : ℕ) (xs ys : List ℕ) → n ≤ length xs → take n (xs ++ ys) ≡ take n xs
take-append_long zero xs ys h = refl
take-append_long (suc n) [] ys h = absurd (omega (arith, h))
take-append_long (suc n) (x ∷ xs) ys h =
    ap (λ zs. x ∷ zs) (take-append_long n xs ys (omega (arith, h)))

-- The buffer behind `all`: its first bytes, and whether there are more.
unfoldable pub held : ℕ → List ℕ → BoundedBuffer
held limit all = record { buf = take limit all; limit = limit; truncated = ltb limit (length all) }

length-take_min :
    (n : ℕ) (xs : List ℕ) → length (take n xs) ≡ (if ltb n (length xs) then n else length xs)
length-take_min zero [] = refl
length-take_min zero (x ∷ xs) = ground arith
length-take_min (suc n) [] = ground arith
length-take_min (suc n) (x ∷ xs) = ground (arith, length-take_min n xs)

module _ (limit : ℕ) {xs ys : List ℕ} {s t : Bool} (p : xs ≡ ys) (q : s ≡ t) where
  same_buffer :
      ◌≡◌ {A = BoundedBuffer}
        (record { buf = xs; limit = limit; truncated = s })
        (record { buf = ys; limit = limit; truncated = t })
  same_buffer = λ i. record { buf = p i; limit = limit; truncated = q i }

-- What is written fits, or is cut, where there is room.
write-held_room :
    (limit : ℕ) (all p : List ℕ)
    → length all < limit
    → (write (held limit all) p).0 ≡ held limit (all ++ p)
unfolding write held
write-held_room limit all p room =
    let short = take_all limit all (omega (arith, room)) in
    let some_left : ltb 0 (limit - length (take limit all)) ≡ true = rw short (ground arith) in
    elim (Bool-cases (ltb (limit - length (take limit all)) (length p))) [
      | inl over ↦
          rw (some_left, over)
            (same_buffer limit
              (rw short (sym (take-append_short limit all p (omega (arith, room)))))
              (ground (arith, ap (λ (xs : List ℕ). length xs) short, length-append all p)))
      | inr fits ↦
          rw (some_left, fits)
            (same_buffer limit
              (rw short (
                sym (
                  take_all limit (all ++ p)
                    (ground (arith, ap (λ (xs : List ℕ). length xs) short, length-append all p)))))
              (ground (arith, ap (λ (xs : List ℕ). length xs) short, length-append all p)))
    ]

-- Where there is none it is dropped.
write-held_full :
    (limit : ℕ) (all p : List ℕ)
    → limit ≤ length all
    → (write (held limit all) p).0 ≡ held limit (all ++ p)
unfolding write held
write-held_full limit all p full =
    let none_left : ltb 0 (limit - length (take limit all)) ≡ false =
      ground (arith, length-take_min limit all) in
    elim (Bool-cases (ltb 0 (length p))) [
      | inl more ↦
          rw (none_left, more)
            (same_buffer limit (sym (take-append_long limit all p full))
              (ground (arith, length-append all p)))
      | inr nothing ↦
          rw (none_left, nothing)
            (same_buffer limit (sym (take-append_long limit all p full))
              (ground (arith, length-append all p)))
    ]

write-held : (limit : ℕ) (all p : List ℕ) → (write (held limit all) p).0 ≡ held limit (all ++ p)
write-held limit all p = elim (Bool-cases (ltb (length all) limit)) [
  | inl room ↦ write-held_room limit all p (ground arith)
  | inr full ↦ write-held_full limit all p (ground arith)
]

write_all-held :
    (limit : ℕ) (all : List ℕ) (ps : List (List ℕ))
    → write_all (held limit all) ps ≡ held limit (all ++ joined ps)
unfolding write_all joined
write_all-held limit all [] = ap (held limit) (sym (append-nil all))
write_all-held limit all (p ∷ ps) =
    ap (λ b. write_all b ps) (write-held limit all p)
    ∙ write_all-held limit (all ++ p) ps
    ∙ ap (held limit) (append_assoc all p (joined ps))

-- After any writes the buffer holds the first bytes of all that was written, never more than the
-- limit, and is marked as truncated exactly if more was written than the limit.
pub write_all_bounds :
    (limit : ℕ) (ps : List (List ℕ))
    → ((write_all (empty_buffer limit) ps).buf ≡ take limit (joined ps))
      × (length (write_all (empty_buffer limit) ps).buf ≤ limit)
      × ((write_all (empty_buffer limit) ps).truncated ≡ ltb limit (length (joined ps)))
unfolding held
write_all_bounds limit ps =
    let start : empty_buffer limit ≡ held limit [] =
      same_buffer limit (sym (take_all limit [] (omega arith))) (ground arith) in
    let e : write_all (empty_buffer limit) ps ≡ held limit (joined ps) =
      ap (λ b. write_all b ps) start ∙ write_all-held limit [] ps in
    rw e (refl, length-take limit (joined ps), refl)
