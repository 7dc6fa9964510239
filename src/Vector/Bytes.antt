-- ===== src/Vector/Bytes.antt =====
-- The switch of cvector_push_x in src/ZToolLib/ztl_vector.c, which copies an element by words of its
-- size.
use ztool_lib.Common.{
  ℕ, zero, suc, ◌+◌, ◌≤◌, ◌≡◌, refl, sym, ap, ap₂, ◌∙◌, true, leb, ◌==◌, if◌then◌else◌, List, [],
  ◌∷◌, ◌++◌, length, take, drop, length-append, length-take, length-drop, take-append-drop,
  append_assoc, arith,
}
use ztool_lib.Common.Memory.{put, take-length}
use ztool_lib.Common.Outcome.{Outcome, done, ◌>>=◌}

-- The sizes of the words that are copied one behind the other.
unfoldable pub words : ℕ → List ℕ
words n =
    if n == 3
    then 2 ∷ 1 ∷ []
    else if n == 5
    then 4 ∷ 1 ∷ []
    else if n == 6
    then 4 ∷ 2 ∷ []
    else if n == 7
    then 4 ∷ 2 ∷ 1 ∷ []
    else if n == 12
    then 8 ∷ 4 ∷ []
    else if n == 16
    then 8 ∷ 8 ∷ []
    else n ∷ []

unfoldable pub copy_words : List ℕ → List ℕ → ℕ → List ℕ → Outcome (List ℕ)
unfolding put
copy_words [] mem at elem = done mem
copy_words (k ∷ ks) mem at elem =
    put mem at (take k elem) >>= λ mem'. copy_words ks mem' (at + k) (drop k elem)

-- The copy of an element of `eltsize` bytes to an offset of the memory.
unfoldable pub copy_elem : ℕ → List ℕ → ℕ → List ℕ → Outcome (List ℕ)
unfolding words copy_words
copy_elem eltsize mem at elem = copy_words (words eltsize) mem at elem

unfoldable pub sum : List ℕ → ℕ
sum [] = 0
sum (k ∷ ks) = k + sum ks

words-sum : (n : ℕ) → sum (words n) ≡ n
unfolding words sum
words-sum n = ground arith

drop-append :
    {A : Type 0} (xs ys : List A) (n j : ℕ) → n ≡ length xs + j → drop n (xs ++ ys) ≡ drop j ys
drop-append [] ys n j e = ap (λ k. drop k ys) (omega (arith, e))
drop-append (x ∷ xs) ys zero j e = absurd (omega arith)
drop-append (x ∷ xs) ys (suc n) j e = drop-append xs ys n j (omega arith)

abbrev nothing : {A : Type 0} → List A
nothing = []

drop-nil : {A : Type 0} (n : ℕ) → drop n (nothing {A = A}) ≡ nothing
drop-nil zero = refl
drop-nil (suc n) = refl

drop-drop : {A : Type 0} (i j n : ℕ) (xs : List A) → n ≡ i + j → drop j (drop i xs) ≡ drop n xs
drop-drop zero j n xs e = ap (λ k. drop k xs) (omega (arith, e))
drop-drop (suc i) j zero xs e = absurd (omega arith)
drop-drop (suc i) j (suc n) [] e = drop-nil j
drop-drop (suc i) j (suc n) (x ∷ xs) e = drop-drop i j n xs (omega arith)

put_explicit :
    (mem : List ℕ) (at : ℕ) (text : List ℕ)
    → at + length text ≤ length mem
    → put mem at text ≡ done (take at mem ++ (text ++ drop (at + length text) mem))
unfolding put
put_explicit mem at text h =
    let fits : leb (at + length text) (length mem) ≡ true = ground (arith, h) in rw (fits)

take-none : {A : Type 0} (n : ℕ) → nothing {A = A} ≡ take n nothing
take-none zero = refl
take-none (suc n) = refl

take-whole : {A : Type 0} (xs : List A) → take (length xs) xs ≡ xs
take-whole [] = refl
take-whole (x ∷ xs) = ap (◌∷◌ x) (take-whole xs)

take-add : {A : Type 0} (k n : ℕ) (xs : List A) → take k xs ++ take n (drop k xs) ≡ take (k + n) xs
take-add zero n xs = ap (λ m. take m xs) (omega arith)
take-add (suc k) zero [] = take-none (suc k + 0)
take-add (suc k) (suc n) [] = take-none (suc k + suc n)
take-add (suc k) n (x ∷ xs) =
    let e : suc (k + n) ≡ suc k + n = omega arith in
    ap (◌∷◌ x) (take-add k n xs) ∙ ap (λ m. take m (x ∷ xs)) e

-- The list after one word, and what the next words meet.
after_word :
    (mem word : List ℕ) (at n : ℕ)
    → at + length word ≤ length mem
    → n ≡ at + length word
    → (take n (take at mem ++ (word ++ drop n mem)) ≡ take at mem ++ word)
      × ((s : ℕ) → drop (n + s) (take at mem ++ (word ++ drop n mem)) ≡ drop (n + s) mem)
      × (length (take at mem ++ (word ++ drop n mem)) ≡ length mem)
after_word mem word at n h e =
    let front = take at mem ++ word in
    let rest = drop n mem in
    let long : length front ≡ n =
      omega (arith, e, length-append (take at mem) word, length-take at mem (omega (arith, h))) in
    let whole : take at mem ++ (word ++ rest) ≡ front ++ rest =
      sym (append_assoc (take at mem) word rest) in
    (
      ap (take n) whole ∙ take-length front rest n (sym long),
      λ s.
          ap (drop (n + s)) whole
          ∙ drop-append front rest (n + s) s (omega (arith, long))
          ∙ drop-drop n s (n + s) mem refl,
      ap length whole ∙ omega (arith, length-append front rest, long, length-drop n mem, h, e),
    )

copy_words_done :
    (ks mem : List ℕ) (at : ℕ) (elem : List ℕ)
    → at + sum ks ≤ length mem
    → sum ks ≤ length elem
    → copy_words ks mem at elem
      ≡ done (take at mem ++ (take (sum ks) elem ++ drop (at + sum ks) mem))
unfolding copy_words sum
copy_words_done [] mem at elem h g =
    ap done (sym (take-append-drop at mem) ∙ ap (λ n. take at mem ++ drop n mem) (omega arith))
copy_words_done (k ∷ ks) mem at elem h g =
    let word = take k elem in
    let s = sum ks in
    let size : length word ≡ k = length-take k elem (omega (arith, g)) in
    let mem1 : List ℕ = take at mem ++ (word ++ drop (at + k) mem) in
    let (front, back, same) =
      after_word mem word at (at + k) (omega (arith, size, h)) (omega (arith, size)) in
    let first : put mem at word ≡ done mem1 =
      put_explicit mem at word (omega (arith, size, h))
      ∙ ap (λ n. done (take at mem ++ (word ++ drop (at + n) mem))) size in
    let rest : copy_words ks mem1 (at + k) (drop k elem) ≡ _ =
      copy_words_done ks mem1 (at + k) (drop k elem) (omega (arith, same, h))
        (omega (arith, length-drop k elem, g)) in
    let q = take s (drop k elem) in
    let tail : drop (at + k + s) mem ≡ drop (at + (k + s)) mem =
      ap (λ n. drop n mem) (omega arith) in
    ap (λ o. o >>= λ m. copy_words ks m (at + k) (drop k elem)) first
    ∙ rest
    ∙ ap₂ (λ xs ys. done (xs ++ (q ++ ys))) front (back s ∙ tail)
    ∙ ap done (
        append_assoc (take at mem) word (q ++ drop (at + (k + s)) mem)
        ∙ ap (λ ys. take at mem ++ ys) (sym (append_assoc word q (drop (at + (k + s)) mem)))
        ∙ ap (λ xs. take at mem ++ (xs ++ drop (at + (k + s)) mem)) (take-add k s elem))

-- The switch of cvector_push_x copies an element of any size that fits in the memory as one memcpy of
-- all its bytes does.
pub copy_elem-eq-put :
    (eltsize : ℕ) (mem : List ℕ) (at : ℕ) (elem : List ℕ)
    → at + eltsize ≤ length mem
    → length elem ≡ eltsize
    → copy_elem eltsize mem at elem ≡ put mem at elem
unfolding copy_elem
copy_elem-eq-put eltsize mem at elem h g =
    let total : sum (words eltsize) ≡ length elem = words-sum eltsize ∙ sym g in
    copy_words_done (words eltsize) mem at elem (omega (arith, total, h, g)) (omega (arith, total))
    ∙ ap (λ n. done (take at mem ++ (take n elem ++ drop (at + n) mem))) total
    ∙ ap (λ xs. done (take at mem ++ (xs ++ drop (at + length elem) mem))) (take-whole elem)
    ∙ sym (put_explicit mem at elem (omega (arith, h, g)))
