-- ===== src/Buffer/Contents.antt =====
-- What the functions of src/ZToolLib/ztl_buffer.c do to the bytes.
use ztool_lib.Common.{
  ℕ, zero, suc, ◌+◌, ◌-◌, ◌/◌, ◌%◌, ◌^◌, ◌≤◌, ◌<◌, ◌≡◌, refl, sym, ap, ap₂, ◌∙◌, Bool, true, false,
  ltb, List, [], ◌∷◌, ◌++◌, length, take, drop, append-nil, arith, Bool-cases, inl, inr,
}
use ztool_lib.Common.Mask.{bit_or-ge, bit_or-lt}
use ztool_lib.Common.Memory.{resize, put, put_done, take-take, take-resize, length-resize}
use ztool_lib.Common.Outcome.{Outcome, done, ◌>>=◌}
use ztool_lib.Buffer.{
  Buffer, smear, roundup, buffer_reserve, buffer_append, open_gap, buffer_insert,
}
use ztool_lib.MsgBuffer.Body.{inserted, take-drop}

smear-ge : (bits c : ℕ) → c ≤ smear bits c
smear-ge bits c = bit_or-ge c (c / 2 ^ bits)

-- A buffer whose block the code has allocated.
pub record IsBuffer (zbuf : Buffer) : Type 0 where
  pub fits : zbuf.size ≤ zbuf.capacity
  pub held : length zbuf.data_ ≡ zbuf.capacity
  pub own : zbuf.const_addr ≡ false

smear-lt : (bits c : ℕ) → c / 2 ^ bits ≤ c → c < 2 ^ 30 → smear bits c < 2 ^ 30
smear-lt bits c le h = bit_or-lt 30 c (c / 2 ^ bits) h (omega (arith, le, h))

-- The rounding of ztl_buffer_reserve gives at least the capacity that is asked for, up to 2^30, and
-- no more than the bit-field holds.
roundup-bounds : (c : ℕ) → 1 ≤ c → c ≤ 2 ^ 30 → (c ≤ roundup c) × (roundup c < 2 ^ 31)
unfolding roundup
roundup-bounds c one small =
    let c1 = smear 1 (c - 1) in
    let c2 = smear 2 c1 in
    let c4 = smear 4 c2 in
    let c8 = smear 8 c4 in
    let l1 = smear-lt 1 (c - 1) (omega arith) (omega arith) in
    let l2 = smear-lt 2 c1 (omega arith) l1 in
    let l4 = smear-lt 4 c2 (omega arith) l2 in
    let l8 = smear-lt 8 c4 (omega arith) l4 in
    let l16 = smear-lt 16 c8 (omega arith) l8 in
    let room : (c ≤ roundup c) × (roundup c ≤ 2 ^ 30) = (
      omega (
        arith,
        one,
        smear-ge 1 (c - 1),
        smear-ge 2 c1,
        smear-ge 4 c2,
        smear-ge 8 c4,
        smear-ge 16 c8,
        l16,
      ),
      omega (arith, l16),
    ) in
    (room.0, omega (arith, room.1))

reserve_done :
    (junk : ℕ) (zbuf : Buffer) (n : ℕ)
    → IsBuffer zbuf
    → zbuf.size ≤ n
    → n ≤ 2 ^ 30
    → (told : Bool) × (room : Buffer) × (buffer_reserve true junk zbuf n ≡ (told, room))
      × (n ≤ length room.data_)
      × (room.const_addr ≡ false)
      × (length room.data_ ≡ room.capacity)
      × (room.size ≡ zbuf.size)
      × (take zbuf.size room.data_ ≡ take zbuf.size zbuf.data_)
unfolding buffer_reserve
reserve_done junk zbuf n w more small = elim (Bool-cases (ltb zbuf.capacity n)) [
  | inl e ↦
      (let (wide, narrow) = roundup-bounds n (ground (arith, e)) small in
        let stored : roundup n % 2 ^ 31 ≡ roundup n = omega (arith, narrow) in
        (
          true,
          record zbuf { data_ = resize junk (roundup n) zbuf.data_; capacity = roundup n },
          rw (w.own, e, stored),
          omega (arith, wide, length-resize junk (roundup n) zbuf.data_),
          w.own,
          length-resize junk (roundup n) zbuf.data_,
          refl,
          take-resize junk zbuf.size (roundup n) zbuf.data_ (omega (arith, wide, more))
              (omega (arith, w.fits, w.held)),
        ))
  | inr e ↦ (true, zbuf, rw (w.own, e), ground (arith, e, w.held), w.own, w.held, refl, refl)
]

-- ztl_buffer_append on a buffer that the code has allocated, up to 2^30 bytes and with memory: it stays
-- inside the block, puts the bytes at the end, and keeps the buffer well-formed.
pub buffer_append-appends :
    (junk : ℕ) (zbuf : Buffer) (adata : List ℕ)
    → IsBuffer zbuf
    → zbuf.size + length adata ≤ 2 ^ 30
    → (zbuf' : Buffer) × (buffer_append true junk zbuf adata ≡ done zbuf')
      × IsBuffer zbuf'
      × (take zbuf'.size zbuf'.data_ ≡ take zbuf.size zbuf.data_ ++ adata)
unfolding buffer_append
buffer_append-appends junk zbuf adata w small =
    let n = (zbuf.size + length adata) % 2 ^ 32 in
    let same : n ≡ zbuf.size + length adata = omega (arith, small) in
    let (told, room, grows, wide, own, held, size, keeps) =
      reserve_done junk zbuf n w (omega (arith, same)) (omega (arith, same, small)) in
    let (d, puts, long, text) = put_done room.data_ zbuf.size adata (omega (arith, same, wide)) in
    let store : Bool × Buffer → Outcome Buffer =
      λ r. put r.1.data_ zbuf.size adata >>= λ d. done (record (r.1) { data_ = d; size = n }) in
    (
      record room { data_ = d; size = n },
      ap store grows ∙ ap (λ o. o >>= λ d. done (record room { data_ = d; size = n })) puts,
      record { fits = omega (arith, wide, held); held = long ∙ held; own = own },
      ap (λ k. take k d) same ∙ text ∙ ap (λ xs. xs ++ adata) keeps,
    )

drop-take : (n : ℕ) (xs : List ℕ) → drop n (take n xs) ≡ []
drop-take zero xs = refl
drop-take (suc n) [] = refl
drop-take (suc n) (x ∷ xs) = drop-take n xs

open_gap_done :
    (room : Buffer) (pos : ℕ) (adata : List ℕ)
    → pos ≤ room.size
    → room.size + length adata ≤ length room.data_
    → (d : List ℕ) × (open_gap room pos adata ≡ done d)
      × (length d ≡ length room.data_)
      × (take (room.size + length adata) d
          ≡ take pos room.data_ ++ (adata ++ drop pos (take room.size room.data_)))
unfolding open_gap
open_gap_done room pos adata inside wide = elim (Bool-cases (ltb pos room.size)) [
  | inl e ↦
      (let n = room.size - pos in
        let (b1, b2, moves, puts, keeps, long) =
          inserted room.data_ adata pos n (omega (arith, inside, wide)) in
        let size : room.size + length adata ≡ pos + length adata + n = omega (arith, inside) in
        let tail : take n (drop pos room.data_) ≡ drop pos (take room.size room.data_) =
          take-drop pos n room.data_
          ∙ ap (λ k. drop pos (take k room.data_)) (omega (arith, inside)) in
        (
          b2,
          rw (e, moves) puts,
          long,
          ap (λ k. take k b2) size ∙ keeps ∙ ap (λ xs. take pos room.data_ ++ (adata ++ xs)) tail,
        ))
  | inr e ↦
      (let same : pos ≡ room.size = ground (arith, e, inside) in
        let (d, puts, long, text) = put_done room.data_ pos adata (omega (arith, same, wide)) in
        let none_behind : adata ++ drop pos (take room.size room.data_) ≡ adata =
          ap (λ k. adata ++ drop k (take room.size room.data_)) same
          ∙ ap (λ xs. adata ++ xs) (drop-take room.size room.data_)
          ∙ append-nil adata in
        (
          d,
          rw (e) puts,
          long,
          ap (λ k. take (k + length adata) d) (sym same)
              ∙ text
              ∙ ap (λ xs. take pos room.data_ ++ xs) (sym none_behind),
        ))
]

-- ztl_buffer_insert at a position up to the size, on a buffer that the code has allocated, up to 2^30
-- bytes and with memory: the bytes stand at the position, between those before it and those behind
-- it, and the buffer stays well-formed.
pub buffer_insert-inserts :
    (junk : ℕ) (zbuf : Buffer) (pos : ℕ) (adata : List ℕ)
    → IsBuffer zbuf
    → pos ≤ zbuf.size
    → zbuf.size + length adata ≤ 2 ^ 30
    → (zbuf' : Buffer) × (buffer_insert true junk zbuf pos adata ≡ done zbuf')
      × IsBuffer zbuf'
      × (take zbuf'.size zbuf'.data_
          ≡ take pos (take zbuf.size zbuf.data_) ++ (adata ++ drop pos (take zbuf.size zbuf.data_)))
unfolding buffer_insert
buffer_insert-inserts junk zbuf pos adata w inside small =
    let n = (zbuf.size + length adata) % 2 ^ 32 in
    let same : n ≡ zbuf.size + length adata = omega (arith, small) in
    let (told, room, grows, wide, own, held, size, keeps) =
      reserve_done junk zbuf n w (omega (arith, same)) (omega (arith, same, small)) in
    let (d, opens, long, text) =
      open_gap_done room pos adata (omega (arith, size, inside))
        (omega (arith, size, same, wide)) in
    let store : Bool × Buffer → Outcome Buffer =
      λ r. open_gap r.1 pos adata >>= λ d. done (record (r.1) { data_ = d; size = n }) in
    let before : take room.size room.data_ ≡ take zbuf.size zbuf.data_ =
      ap (λ k. take k room.data_) size ∙ keeps in
    let front : take pos room.data_ ≡ take pos (take zbuf.size zbuf.data_) =
      sym (take-take pos zbuf.size room.data_ inside) ∙ ap (take pos) keeps in
    (
      record room { data_ = d; size = n },
      ap store grows ∙ ap (λ o. o >>= λ d. done (record room { data_ = d; size = n })) opens,
      record { fits = omega (arith, wide, held); held = long ∙ held; own = own },
      ap (λ k. take k d) (omega (arith, same, size))
          ∙ text
          ∙ ap₂ (λ xs ys. xs ++ (adata ++ drop pos ys)) front before,
    )
