-- ===== src/Policy/Chunks.antt =====
-- The chunks that `chunkText` cuts: their number of rounds, their length, and the characters they hold.
use smart_parking_management.Prelude.{
  min, ℕ, zero, suc, ◌+◌, ◌-◌, ◌≤◌, ◌<◌, Bool, true, false, ◌≡◌, refl, ap, ◌∙◌, some, List, [], ◌∷◌,
  find_many, length, All, ltb, ◌==◌, arith, Bool-cases, inl, inr,
}
use smart_parking_management.Schema.{Text}
use smart_parking_management.Policy.{
  is_space, collapse, trim_start, trim_end, trim, normalize, take, drop, slice, push_given,
  chunks_from, chunk_text,
}

-- How often a character stands in a text, and in several.
abbrev pub count : ℕ → Text → ℕ
count c text = length (find_many (λ d. d == c) text)

abbrev pub count_all : ℕ → List Text → ℕ
count_all c [] = 0
count_all c (text ∷ texts) = count c text + count_all c texts

module _ (c : ℕ) (visible : is_space c ≡ false) where
  count-collapse : (after : Bool) (text : Text) → count c (collapse after text) ≡ count c text
  unfolding collapse
  count-collapse after [] = refl
  count-collapse after (d ∷ ds) =
      ground (arith, visible, count-collapse true ds, count-collapse false ds)

  count-trim_start : (text : Text) → count c (trim_start text) ≡ count c text
  unfolding trim_start
  count-trim_start [] = refl
  count-trim_start (d ∷ ds) = ground (arith, visible, count-trim_start ds)

  count-trim_end : (text : Text) → count c (trim_end text) ≡ count c text
  unfolding trim_end
  count-trim_end [] = refl
  count-trim_end (d ∷ ds) = ground (arith, visible, count-trim_end ds)

  count-trim : (text : Text) → count c (trim text) ≡ count c text
  unfolding trim
  count-trim text = count-trim_end (trim_start text) ∙ count-trim_start text

  count-normalize : (text : Text) → count c (normalize text) ≡ count c text
  unfolding normalize
  count-normalize text = count-trim (collapse false text) ∙ count-collapse false text

count-take-drop :
    (c n : ℕ) (text : Text) → count c text ≡ count c (take n text) + count c (drop n text)
unfolding take drop
count-take-drop c zero text = ground arith
count-take-drop c (suc n) [] = ground arith
count-take-drop c (suc n) (d ∷ ds) = ground (arith, count-take-drop c n ds)

count-drop : (c n : ℕ) (text : Text) → count c (drop n text) ≤ count c text
count-drop c n text = omega (arith, count-take-drop c n text)

length-trim_start : (text : Text) → length (trim_start text) ≤ length text
unfolding trim_start
length-trim_start [] = omega arith
length-trim_start (d ∷ ds) = ground (arith, length-trim_start ds)

length-trim_end : (text : Text) → length (trim_end text) ≤ length text
unfolding trim_end
length-trim_end [] = omega arith
length-trim_end (d ∷ ds) = ground (arith, length-trim_end ds)

length-take : (n : ℕ) (text : Text) → length (take n text) ≤ n
unfolding take
length-take zero text = omega arith
length-take (suc n) [] = omega arith
length-take (suc n) (d ∷ ds) = omega (arith, length-take n ds)

length-slice : (start end : ℕ) (text : Text) → length (slice start end text) ≤ end - start
unfolding slice
length-slice start end text = length-take (end - start) (drop start text)

length-trim : (text : Text) → length (trim text) ≤ length text
unfolding trim
length-trim text = omega (arith, length-trim_end (trim_start text), length-trim_start text)

drop-drop : (m n : ℕ) (text : Text) → drop m (drop n text) ≡ drop (m + n) text
unfolding drop
drop-drop m zero text = let same : m ≡ m + 0 = omega arith in ap (λ k. drop k text) same
drop-drop zero (suc n) text =
    let same : suc n ≡ 0 + suc n = omega arith in ap (λ k. drop k text) same
drop-drop (suc m) (suc n) [] =
    let same : suc (m + suc n) ≡ suc m + suc n = omega arith in ap (λ k. drop k []) same
drop-drop (suc m) (suc n) (c ∷ cs) =
    let same : suc (suc m + n) ≡ suc m + suc n = omega arith in
    drop-drop (suc m) n cs ∙ ap (λ k. drop k (c ∷ cs)) same

drop_all : (n : ℕ) (text : Text) → length text ≤ n → drop n text ≡ []
unfolding drop
drop_all zero [] h = refl
drop_all zero (c ∷ cs) h = absurd (omega (arith, h))
drop_all (suc n) [] h = refl
drop_all (suc n) (c ∷ cs) h = drop_all n cs (omega (arith, h))

count-push_given :
    (c : ℕ) (chunk : Text) (chunks : List Text)
    → count_all c (push_given chunk chunks) ≡ count c chunk + count_all c chunks
count-push_given c [] chunks = omega arith
count-push_given c (d ∷ ds) chunks = refl

module _ (chunk_size overlap : ℕ) (text : Text) where
  abbrev pub Fits : Text → Type 0
  Fits chunk = (0 < length chunk) × (length chunk ≤ chunk_size)

  -- The chunks fit, and hold every character from a start on that is not a space.
  abbrev Hold : ℕ → List Text → Type 0
  Hold start chunks =
      All Fits chunks
      × ((c : ℕ) → is_space c ≡ false → count c (drop start text) ≤ count_all c chunks)

  All-push_given :
      (chunk : Text) (chunks : List Text)
      → length chunk ≤ chunk_size
      → All Fits chunks
      → All Fits (push_given chunk chunks)
  All-push_given [] chunks le h = h
  All-push_given (c ∷ cs) chunks le h = ((omega arith, le), h)

  count-slice :
      (c start end : ℕ)
      → start ≤ end
      → count c (drop start text) ≡ count c (slice start end text) + count c (drop end text)
  unfolding slice
  count-slice c start end le =
      let rest = drop-drop (end - start) start text in
      let same : (end - start) + start ≡ end = omega (arith, le) in
      let whole : drop (end - start) (drop start text) ≡ drop end text =
        rest ∙ ap (λ k. drop k text) same in
      let parts = count-take-drop c (end - start) (drop start text) in rw (← whole) parts

  count-later : (c next end : ℕ) → next ≤ end → count c (drop end text) ≤ count c (drop next text)
  count-later c next end le =
      let rest = drop-drop (end - next) next text in
      let same : (end - next) + next ≡ end = omega (arith, le) in
      let whole : drop (end - next) (drop next text) ≡ drop end text =
        rest ∙ ap (λ k. drop k text) same in
      rw (← whole) (count-drop c (end - next) (drop next text))

  -- One round: the chunk from the start to the end, and the chunks from a start that is not later.
  Hold-round :
      (start end next : ℕ) (chunks : List Text)
      → start ≤ end
      → end ≤ start + chunk_size
      → next ≤ end
      → Hold next chunks
      → Hold start (push_given (trim (slice start end text)) chunks)
  Hold-round start end next chunks le fits later (all, holds) =
      let chunk = trim (slice start end text) in
      let short : length chunk ≤ chunk_size =
        omega (arith, length-trim (slice start end text), length-slice start end text, fits, le) in
      (
        All-push_given chunk chunks short all,
        λ c visible. omega (
          arith,
          count-slice c start end le,
          count-later c next end later,
          holds c visible,
          count-trim c visible (slice start end text),
          count-push_given c chunk chunks,
        ),
      )

  Hold-end : (start : ℕ) → length text ≤ start → Hold start []
  Hold-end start le = (tt, λ c visible. rw (drop_all start text le) (omega arith))

  chunks_from-Hold :
      (fuel start : ℕ)
      → overlap < chunk_size
      → length text - start < fuel
      → (chunks : List Text) × (chunks_from fuel chunk_size overlap text start ≡ some chunks)
        × Hold start chunks
  unfolding chunks_from
  chunks_from-Hold zero start smaller enough = absurd (omega arith)
  chunks_from-Hold (suc fuel) start smaller enough =
      let end = min (start + chunk_size) (length text) in
      let chunk = trim (slice start end text) in
      elim (Bool-cases (ltb start (length text))) [
        | inr past ↦ ([], rw past refl, Hold-end start (ground (arith, past)))
        | inl inside ↦
            let le : start ≤ end = ground (arith, inside) in
            let fits : end ≤ start + chunk_size = ground arith in
            elim (Bool-cases (end == length text)) [
              | inl last ↦ (
                push_given chunk [],
                rw (inside, last) refl,
                Hold-round start end (length text) [] le fits (ground (arith, last))
                    (Hold-end (length text) (omega arith)),
              )
              | inr more ↦
                  let (chunks, run, holds) =
                    chunks_from-Hold fuel (end - overlap) smaller
                      (ground (arith, inside, more, smaller, enough)) in
                  (
                    push_given chunk chunks,
                    rw (inside, more, run) refl,
                    Hold-round start end (end - overlap) chunks le fits (omega arith) holds,
                  )
            ]
      ]

-- The cutting of a text into chunks ends, if the overlap is less than a chunk: no chunk is empty or
-- longer than the size, and every character of the text that is not a space stands in the chunks at
-- least as often as in the text.
pub chunk_text_holds :
    (text : Text) (chunk_size overlap : ℕ)
    → overlap < chunk_size
    → (chunks : List Text) × (chunk_text text chunk_size overlap ≡ some chunks)
      × All (Fits chunk_size overlap text) chunks
      × ((c : ℕ) → is_space c ≡ false → count c text ≤ count_all c chunks)
unfolding chunk_text
chunk_text_holds text chunk_size overlap smaller =
    let (chunks, run, (fit, holds)) =
      chunks_from-Hold chunk_size overlap (normalize text) (suc (length (normalize text))) 0 smaller
        (omega arith) in
    (chunks, run, fit, λ c visible. omega (arith, holds c visible, count-normalize c visible text))
