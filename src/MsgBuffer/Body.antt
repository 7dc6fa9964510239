-- ===== src/MsgBuffer/Body.antt =====
-- The body of the buffer of src/ZToolLib/ztl_msg_buffer.c: what append and insert do to it.
use ztool_lib.Common.{
  ℕ, zero, suc, ◌+◌, ◌-◌, ◌%◌, ◌^◌, ◌≤◌, ◌<◌, ◌≡◌, refl, sym, ap, ap₂, ◌∙◌, true, false, ltb, leb,
  List, [], ◌∷◌, ◌++◌, length, take, drop, length-append, length-take, length-drop, append_assoc,
  arith, Bool-cases, inl, inr, ◌⊎◌,
}
use ztool_lib.Common.Memory.{put, put_done, take-append, take-take, take-length}
use ztool_lib.Common.Outcome.{done}
use ztool_lib.MsgBuffer.{MsgBuffer, mb_avail, mb_append, shift, mb_insert}

-- The bytes in use.
abbrev pub content : MsgBuffer → List ℕ
content zmb = take zmb.used zmb.body

-- The bytes in use fit in the size, and the size in the memory and in a 32-bit word.
pub record IsMsgBuffer (zmb : MsgBuffer) : Type 0 where
  pub fits : zmb.used ≤ zmb.body_size
  pub held : zmb.body_size ≤ length zmb.body
  pub word : zmb.body_size < 2 ^ 32

mb_avail-rest : (zmb : MsgBuffer) → IsMsgBuffer zmb → mb_avail zmb ≡ zmb.body_size - zmb.used
unfolding mb_avail
mb_avail-rest zmb w = omega (arith, w.fits, w.word)

-- ztl_mb_append on a well-formed buffer: bytes that do not fit in the rest are refused, and the buffer
-- stays; others are put behind the bytes in use, and the buffer stays well-formed.
pub mb_append_done :
    (zmb : MsgBuffer) (text : List ℕ)
    → IsMsgBuffer zmb
    → ((zmb.body_size < zmb.used + length text) × (mb_append zmb text ≡ done (false, zmb)))
      ⊎ ((zmb' : MsgBuffer) × (mb_append zmb text ≡ done (true, zmb'))
          × IsMsgBuffer zmb'
          × (content zmb' ≡ content zmb ++ text)
          × (zmb'.refcount ≡ zmb.refcount))
unfolding mb_append
mb_append_done zmb text w =
    let rest = mb_avail-rest zmb w in
    elim (Bool-cases (ltb (mb_avail zmb) (length text))) [
      | inl e ↦ inl (ground (arith, e, rest, w.fits), rw (e))
      | inr e ↦
          (let small : zmb.used + length text ≤ zmb.body_size = ground (arith, e, rest, w.fits) in
            let (body, runs, size, keeps) =
              put_done zmb.body zmb.used text (omega (arith, small, w.held)) in
            let same : (zmb.used + length text) % 2 ^ 32 ≡ zmb.used + length text =
              omega (arith, small, w.word) in
            inr (
              record zmb { body = body; used = (zmb.used + length text) % 2 ^ 32 },
              rw (e, runs),
              record {
                fits = omega (arith, same, small);
                held = omega (arith, size, w.held);
                word = w.word;
              },
              ap (λ n. take n body) same ∙ keeps,
              refl,
            ))
    ]

pub drop-length : {A : Type 0} (xs ys : List A) (n : ℕ) → n ≡ length xs → drop n (xs ++ ys) ≡ ys
drop-length [] ys zero e = refl
drop-length [] ys (suc n) e = absurd (omega arith)
drop-length (x ∷ xs) ys zero e = absurd (omega arith)
drop-length (x ∷ xs) ys (suc n) e = drop-length xs ys n (omega arith)

take-nil : {A : Type 0} (n : ℕ) (xs : List A) → xs ≡ [] → take n xs ≡ []
take-nil zero xs e = refl
take-nil (suc n) xs e = rw (e)

pub take-drop : {A : Type 0} (i n : ℕ) (xs : List A) → take n (drop i xs) ≡ drop i (take (i + n) xs)
take-drop zero n xs = ap (λ k. take k xs) (omega arith)
take-drop (suc i) n [] =
    let e : suc i + n ≡ suc (i + n) = omega arith in
    take-nil n [] refl ∙ ap (λ k. drop (suc i) (take k [])) (sym e)
take-drop (suc i) n (x ∷ xs) =
    let e : suc i + n ≡ suc (i + n) = omega arith in
    take-drop i n xs ∙ ap (λ k. drop (suc i) (take k (x ∷ xs))) (sym e)

-- The body after the bytes have moved and the text stands in the gap.
pub inserted :
    (body text : List ℕ) (index n : ℕ)
    → index + length text + n ≤ length body
    → (b1 b2 : List ℕ) × (shift body index (length text) n ≡ done b1)
      × (put b1 index text ≡ done b2)
      × (take (index + length text + n) b2 ≡ take index body ++ (text ++ take n (drop index body)))
      × (length b2 ≡ length body)
unfolding shift put
inserted body text index n h =
    let s = length text in
    let front = take (index + s) body in
    let mid = take n (drop index body) in
    let rest = drop (index + s + n) body in
    let b1 : List ℕ = front ++ (mid ++ rest) in
    let b2 : List ℕ = take index b1 ++ (text ++ drop (index + s) b1) in
    let long : length front ≡ index + s = length-take (index + s) body (omega (arith, h)) in
    let mid_long : length mid ≡ n =
      length-take n (drop index body) (omega (arith, length-drop index body, h)) in
    let head : take index b1 ≡ take index body =
      take-append index front (mid ++ rest) (omega (arith, long))
      ∙ take-take index (index + s) body (omega arith) in
    let back : drop (index + s) b1 ≡ mid ++ rest =
      drop-length front (mid ++ rest) (index + s) (sym long) in
    let whole : b2 ≡ (take index body ++ (text ++ mid)) ++ rest =
      ap₂ (λ xs ys. xs ++ (text ++ ys)) head back
      ∙ ap (λ ys. take index body ++ ys) (sym (append_assoc text mid rest))
      ∙ sym (append_assoc (take index body) (text ++ mid) rest) in
    let size : index + s + n ≡ length (take index body ++ (text ++ mid)) = omega (
      arith,
      length-append (take index body) (text ++ mid),
      length-append text mid,
      length-take index body (omega (arith, h)),
      mid_long,
    ) in
    let moves : leb (index + s + n) (length body) ≡ true = ground (arith, h) in
    let room : leb (index + s) (length b1) ≡ true =
      ground (arith, long, length-append front (mid ++ rest)) in
    (
      b1,
      b2,
      rw (moves),
      rw (room),
      ap (take (index + s + n)) whole
          ∙ take-length (take index body ++ (text ++ mid)) rest (index + s + n) size,
      omega (
        arith,
        h,
        long,
        mid_long,
        length-append front (mid ++ rest),
        length-append mid rest,
        length-drop (index + s + n) body,
        length-append (take index b1) (text ++ drop (index + s) b1),
        length-append text (drop (index + s) b1),
        length-take index b1 (omega (arith, long, length-append front (mid ++ rest))),
        length-drop (index + s) b1,
      ),
    )

-- ztl_mb_insert of a text that fits, at an index in the bytes in use of a well-formed buffer: the text
-- stands at the index, with the bytes before it and behind it; but the count of the bytes in use
-- stays, so that the last of them are no longer counted.
pub mb_insert_done :
    (zmb : MsgBuffer) (index : ℕ) (text : List ℕ)
    → IsMsgBuffer zmb
    → index ≤ zmb.used
    → zmb.used + length text ≤ zmb.body_size
    → (zmb' : MsgBuffer) × (mb_insert zmb index text ≡ done (true, zmb'))
      × (take (zmb.used + length text) zmb'.body
          ≡ take index zmb.body ++ (text ++ drop index (content zmb)))
      × (zmb'.used ≡ zmb.used)
unfolding mb_insert inserted
mb_insert_done zmb index text w inside small =
    let n = zmb.used - index in
    let rest = mb_avail-rest zmb w in
    let fits : ltb (mb_avail zmb) (length text) ≡ false = ground (arith, rest, small) in
    let count : (zmb.used + 2 ^ 32 - index) % 2 ^ 32 ≡ n = omega (arith, inside, small, w.word) in
    let (b1, b2, moves, puts, keeps, _) =
      inserted zmb.body text index n (omega (arith, inside, small, w.held)) in
    let size : zmb.used + length text ≡ index + length text + n = omega (arith, inside) in
    let tail : take n (drop index zmb.body) ≡ drop index (content zmb) =
      take-drop index n zmb.body ∙ ap (λ k. drop index (take k zmb.body)) (omega (arith, inside)) in
    (
      record zmb { body = b2 },
      rw (fits, count, moves, puts),
      ap (λ k. take k b2) size ∙ keeps ∙ ap (λ xs. take index zmb.body ++ (text ++ xs)) tail,
      refl,
    )
