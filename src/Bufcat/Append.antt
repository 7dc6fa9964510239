-- ===== src/Bufcat/Append.antt =====
-- What the functions of src/ZToolLib/ztl_bufcat.c append.
use ztool_lib.Common.{
  ℕ, suc, ◌+◌, ◌*◌, ◌≤◌, ◌<◌, ◌≡◌, refl, sym, ap, ap₂, ◌∙◌, Bool, true, false, leb, ◌==◌,
  if◌then◌else◌, Option, none, some, List, [], ◌∷◌, ◌++◌, length, take, length-append, length-take,
  append_assoc, append-nil, arith, Bool-cases, list-cases, inl, inr,
}
use ztool_lib.Common.Memory.{
  resize, put, put_done, take-resize, length-resize, take-take, take-length,
}
use ztool_lib.Common.Outcome.{Outcome, done, fault, ◌>>=◌}
use ztool_lib.Bufcat.{
  Bufcat, room, expand_if_needed, write, append_sep, append, append_expanded, bufcat_str_len,
  bufcat_printed,
}

abbrev pub text_of : Bufcat → List ℕ
text_of bc = elim bc.buf [ none ↦ [] | some b ↦ take bc.len b ]

-- A buffer that the code has allocated, with a separator of at most two characters.
pub record IsBufcat (bc : Bufcat) : Type 0 where
  pub block : List ℕ
  pub held : bc.buf ≡ some block
  pub sized : length block ≡ bc.capacity
  pub inside : bc.len ≤ bc.capacity
  pub grows : bc.alloced ≡ true
  pub short : length bc.sep ≤ 2
  pub roomy : 3 ≤ bc.capacity

-- What comes before a new text.
unfoldable pub joint : Bufcat → List ℕ
joint bc = if bc.len == 0 then [] else bc.sep

write_done :
    (bc : Bufcat) (b : List ℕ) (at : ℕ) (text : List ℕ)
    → bc.buf ≡ some b
    → at + length text ≤ length b
    → (b' : List ℕ) × (write bc at text ≡ done (record bc { buf = some b' }))
      × (length b' ≡ length b)
      × (take (at + length text) b' ≡ take at b ++ text)
unfolding write
write_done bc b at text e h =
    let (b', runs, same, keeps) = put_done b at text h in
    let pick : Option (List ℕ) → Outcome Bufcat = λ o. elim o [
      | none ↦ fault
      | some b ↦ put b at text >>= λ b'. done (record bc { buf = some b' })
    ] in
    (b', ap pick e ∙ ap (λ o. o >>= λ b'. done (record bc { buf = some b' })) runs, same, keeps)

joint-first : (bc : Bufcat) → (bc.len == 0) ≡ true → joint bc ≡ []
unfolding joint
joint-first bc f = rw (f)

joint-later : (bc : Bufcat) → (bc.len == 0) ≡ false → joint bc ≡ bc.sep
unfolding joint
joint-later bc f = rw (f)

joint-no_sep : (bc : Bufcat) → (length bc.sep == 0) ≡ true → joint bc ≡ []
joint-no_sep bc e = elim (list-cases bc.sep) [
  | inr (c, cs, g) ↦
      (let long : length bc.sep ≡ suc (length cs) = ap length g in absurd (ground (arith, e, long)))
  | inl g ↦ elim (Bool-cases (bc.len == 0)) [
    | inl f ↦ joint-first bc f
    | inr f ↦ joint-later bc f ∙ g
  ]
]

nothing_joined :
    (bc : Bufcat) (w : IsBufcat bc)
    → joint bc ≡ []
    → (bc ≡ record bc { buf = some w.block; len = bc.len + length (joint bc) })
      × (take (bc.len + length (joint bc)) w.block ≡ take bc.len w.block ++ joint bc)
nothing_joined bc w none_here =
    let same : bc.len ≡ bc.len + length (joint bc) = omega (arith, ap length none_here) in
    (
      ap₂ (λ (o : Option (List ℕ)) (n : ℕ). record bc { buf = o; len = n }) w.held same,
      ap (λ n. take n w.block) (sym same)
          ∙ sym (ap (λ xs. take bc.len w.block ++ xs) none_here ∙ append-nil (take bc.len w.block)),
    )

append_sep-later :
    (bc : Bufcat) (b : List ℕ)
    → (length bc.sep == 0) ≡ false
    → (bc.len == 0) ≡ false
    → length bc.sep ≤ 2
    → write bc bc.len bc.sep ≡ done (record bc { buf = some b })
    → append_sep bc ≡ done (true, record bc { buf = some b; len = bc.len + length bc.sep })
unfolding append_sep
append_sep-later bc b e f short runs =
    let n = length bc.sep in
    let place : (if n == 1 then bc.len else if n == 2 then bc.len else 0) ≡ bc.len =
      ground (arith, e, short) in
    rw (f, place, runs)

-- The separator before the text.
joined :
    (bc : Bufcat) (w : IsBufcat bc)
    → bc.len + length bc.sep ≤ bc.capacity
    → (told : Bool) × (b : List ℕ) × ((if length bc.sep == 0
          then done (false, bc)
          else append_sep bc)
        ≡ done (told, record bc { buf = some b; len = bc.len + length (joint bc) }))
      × (length b ≡ bc.capacity)
      × (take (bc.len + length (joint bc)) b ≡ take bc.len w.block ++ joint bc)
unfolding append_sep
joined bc w h = elim (Bool-cases (length bc.sep == 0)) [
  | inl e ↦
      (let (same, kept) = nothing_joined bc w (joint-no_sep bc e) in
        (false, w.block, rw (e) (ap (λ x. done (false, x)) same), w.sized, kept))
  | inr e ↦ elim (Bool-cases (bc.len == 0)) [
    | inl f ↦
        (let (same, kept) = nothing_joined bc w (joint-first bc f) in
          (false, w.block, rw (e, f) (ap (λ x. done (false, x)) same), w.sized, kept))
    | inr f ↦
        (let (b', runs, size, keeps) =
            write_done bc w.block bc.len bc.sep w.held (omega (arith, h, w.sized)) in
          (
            true,
            b',
            rw (e, joint-later bc f) (append_sep-later bc b' e f w.short runs),
            size ∙ w.sized,
            rw (joint-later bc f) keeps,
          ))
  ]
]

length-joint-le : (bc : Bufcat) → length (joint bc) ≤ length bc.sep
length-joint-le bc = elim (Bool-cases (bc.len == 0)) [
  | inl f ↦ omega (arith, ap length (joint-first bc f))
  | inr f ↦ omega (arith, ap length (joint-later bc f))
]

front_of :
    (b : List ℕ) (n : ℕ) (xs text tail : List ℕ)
    → length xs ≡ n
    → take (n + length (text ++ tail)) b ≡ xs ++ (text ++ tail)
    → take (n + length text) b ≡ xs ++ text
front_of b n xs text tail h e =
    let k = n + length text in
    let big = n + length (text ++ tail) in
    let within : k ≤ big = omega (arith, length-append text tail) in
    let size : k ≡ length (xs ++ text) = omega (arith, h, length-append xs text) in
    sym (take-take k big b within)
    ∙ ap (take k) (e ∙ sym (append_assoc xs text tail))
    ∙ take-length (xs ++ text) tail k size

text_of_held : (bc : Bufcat) (w : IsBufcat bc) → text_of bc ≡ take bc.len w.block
text_of_held bc w =
    ap (λ (o : Option (List ℕ)). elim o [ none ↦ [] | some b ↦ take bc.len b ]) w.held

joint_congr : (a b : Bufcat) → a.len ≡ b.len → a.sep ≡ b.sep → joint a ≡ joint b
unfolding joint
joint_congr a b e f = ap₂ (λ (n : ℕ) (s : List ℕ). if n == 0 then [] else s) e f

append_done :
    (bc : Bufcat) (text tail : List ℕ)
    → IsBufcat bc
    → bc.len + length bc.sep + length text + length tail ≤ bc.capacity
    → (bc' : Bufcat) × (append bc text tail ≡ done bc')
      × IsBufcat bc'
      × (text_of bc' ≡ text_of bc ++ (joint bc ++ text))
      × (bc'.sep ≡ bc.sep)
unfolding append
append_done bc text tail w h =
    let (told, b, runs, size, keeps) = joined bc w (omega (arith, h)) in
    let mid : Bufcat = record bc { buf = some b; len = bc.len + length (joint bc) } in
    let small = length-joint-le bc in
    let longer = length-append text tail in
    let (b', runs', size', keeps') =
      write_done mid b mid.len (text ++ tail) refl (omega (arith, h, small, size, longer)) in
    (
      record bc { buf = some b'; len = mid.len + length text },
      rw (runs, runs'),
      record {
        block = b';
        held = refl;
        sized = size' ∙ size;
        inside = omega (arith, h, small, size);
        grows = w.grows;
        short = w.short;
        roomy = w.roomy;
      },
      front_of b' mid.len (take mid.len b) text tail
            (length-take mid.len b (omega (arith, h, small, size))) keeps'
          ∙ ap (λ xs. xs ++ text) (keeps ∙ ap (λ xs. xs ++ joint bc) (sym (text_of_held bc w)))
          ∙ append_assoc (text_of bc) (joint bc) text,
      refl,
    )

-- The expansion keeps the text and makes room for the separator and more.
expand_done :
    (junk : ℕ) (bc : Bufcat) (n : ℕ)
    → IsBufcat bc
    → (bc' : Bufcat) × (expand_if_needed true junk bc n ≡ (room, bc'))
      × IsBufcat bc'
      × (bc'.len ≡ bc.len)
      × (bc'.sep ≡ bc.sep)
      × (text_of bc' ≡ text_of bc)
      × (bc.len + length bc.sep + n < bc'.capacity)
unfolding expand_if_needed
expand_done junk bc n w = elim (Bool-cases (leb bc.capacity (bc.len + length bc.sep + n))) [
  | inr e ↦ (bc, rw (e), w, refl, refl, refl, ground (arith, e))
  | inl e ↦
      (let capacity = bc.capacity * 2 + n in
        let old : Option (List ℕ) → List ℕ = λ o. elim o [ none ↦ [] | some b ↦ b ] in
        let block = resize junk capacity w.block in
        let same : old bc.buf ≡ w.block = ap old w.held in
        (
          record bc { capacity = capacity; buf = some (resize junk capacity (old bc.buf)) },
          rw (e, w.grows),
          record {
            block = block;
            held = ap (λ b. some (resize junk capacity b)) same;
            sized = length-resize junk capacity w.block;
            inside = omega (arith, w.inside);
            grows = w.grows;
            short = w.short;
            roomy = omega (arith, w.roomy);
          },
          refl,
          refl,
          ap (λ b. take bc.len (resize junk capacity b)) same
              ∙ take-resize junk bc.len capacity w.block (omega (arith, w.inside))
                  (omega (arith, w.inside, w.sized))
              ∙ sym (text_of_held bc w),
          omega (arith, w.inside, w.short, w.roomy),
        ))
]

-- bufcat_str_len on a buffer that the code has allocated, with at least three characters of capacity,
-- a separator of at most two, and memory: it stays inside the buffer and puts the separator, unless
-- the buffer was empty, and the text at the end.
pub bufcat_str_len-appends :
    (junk : ℕ) (bc : Bufcat) (str : List ℕ)
    → IsBufcat bc
    → (bc' : Bufcat) × (bufcat_str_len true junk bc str ≡ done (true, bc'))
      × IsBufcat bc'
      × (text_of bc' ≡ text_of bc ++ (joint bc ++ str))
      × (bc'.sep ≡ bc.sep)
unfolding bufcat_str_len append_expanded
bufcat_str_len-appends junk bc str w =
    let (bc1, grows, w1, len1, sep1, text1, space) = expand_done junk bc (length str) w in
    let same : joint bc1 ≡ joint bc = joint_congr bc1 bc len1 sep1 in
    let long : length bc1.sep ≡ length bc.sep = ap length sep1 in
    let (bc2, runs, w2, text2, sep2) =
      append_done bc1 str [] w1 (omega (arith, long, len1, space)) in
    (
      bc2,
      ap (append_expanded str []) grows ∙ ap (λ o. o >>= λ r. done (true, r)) runs,
      w2,
      text2 ∙ ap₂ (λ xs ys. xs ++ (ys ++ str)) text1 same,
      sep2 ∙ sep1,
    )

-- The functions that print a number, for a text that leaves room for the zero of sprintf: they do what
-- bufcat_str_len does.
pub bufcat_printed-appends :
    (junk : ℕ) (bc : Bufcat) (size : ℕ) (text : List ℕ)
    → IsBufcat bc
    → length text < size
    → (bc' : Bufcat) × (bufcat_printed true junk bc size text ≡ done (true, bc'))
      × IsBufcat bc'
      × (text_of bc' ≡ text_of bc ++ (joint bc ++ text))
unfolding bufcat_printed append_expanded
bufcat_printed-appends junk bc size text w h =
    let (bc1, grows, w1, len1, sep1, text1, space) = expand_done junk bc size w in
    let same : joint bc1 ≡ joint bc = joint_congr bc1 bc len1 sep1 in
    let long : length bc1.sep ≡ length bc.sep = ap length sep1 in
    let (bc2, runs, w2, text2, sep2) =
      append_done bc1 text (0 ∷ []) w1 (omega (arith, long, len1, space, h)) in
    (
      bc2,
      ap (append_expanded text (0 ∷ [])) grows ∙ ap (λ o. o >>= λ r. done (true, r)) runs,
      w2,
      text2 ∙ ap₂ (λ xs ys. xs ++ (ys ++ text)) text1 same,
    )
