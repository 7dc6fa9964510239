-- ===== src/LfQueue/Contents.antt =====
-- The window of the queue of lockfreequeue.c under the three writes that the code makes.
use ztool_lib.Common.{
  ℕ, suc, ◌+◌, ◌*◌, ◌^◌, ◌≡◌, ◌≢◌, ◌≤◌, ◌<◌, true, false, ltb, lt→ltb, tests, sym, ap, ◌∙◌, [], ◌∷◌,
  ◌++◌, some, length, get_elem?, set, length-set, arith,
}
use ztool_lib.LfQueue.{Lfqueue, next_index, size_align}
use ztool_lib.LfQueue.Window.{
  used, contents, window, length-window, window_front, window-set_past, window_snoc, next_index-lt,
  next_index-eq_iff_full, used-commit, used-take, used-lt, place-used,
}

-- The indices lie in the array.
pub record IsIndexed {A : Type 0} (q : Lfqueue A) : Type 0 where
  pub small : q.size < 2 ^ 32
  pub read_in : q.read_index < q.size
  pub max_in : q.max_read_index < q.size
  pub slots : length q.arrdata ≡ q.size

-- The bytes of the slots, each rounded up to four as in lfqueue_memory_size, have a size that a
-- `uint32_t` holds.
abbrev pub Addressable : {A : Type 0} → Lfqueue A → Type 0
Addressable q = q.size * size_align q.eltsize 4 < 2 ^ 32

bytes_le :
    (i size eltsize aligned : ℕ) → i < size → eltsize ≤ aligned → i * eltsize ≤ size * aligned
bytes_le i size eltsize aligned h k = grind arith

offset_le :
    {A : Type 0} (q : Lfqueue A) (i : ℕ)
    → i < q.size
    → i * q.eltsize ≤ q.size * size_align q.eltsize 4
offset_le q i h = bytes_le i q.size q.eltsize (size_align q.eltsize 4) h (omega arith)

-- The offset of a slot fits.
pub offset_fits :
    {A : Type 0} (q : Lfqueue A) (i : ℕ)
    → i < q.size
    → Addressable q
    → ltb (i * q.eltsize) (2 ^ 32) ≡ true
offset_fits q i h k = lt→ltb _ _ (omega (arith, offset_le q i h, k))

-- An offset that does not fit shows that the slots are not addressable.
pub overflow_not_Addressable :
    {A : Type 0} (q : Lfqueue A) (i : ℕ)
    → i < q.size
    → ltb (i * q.eltsize) (2 ^ 32) ≡ false
    → ¬ Addressable q
overflow_not_Addressable q i h e k = omega (tests, e, offset_le q i h, k)

module _ {A : Type 0} where
  pub length-contents :
      (q : Lfqueue A)
      → IsIndexed q
      → length (contents q) ≡ used q.read_index q.max_read_index q.size
  length-contents q v = length-window q.size v.small q.arrdata q.read_index _ v.slots v.read_in

  -- Committing a stored element adds it at the end of the window.
  pub contents-commit :
      (q : Lfqueue A) (v : A)
      → IsIndexed q
      → next_index q.max_read_index q.size ≢ q.read_index
      → get_elem? q.arrdata q.max_read_index ≡ some v
      → contents (record q { max_read_index = next_index q.max_read_index q.size })
        ≡ contents q ++ v ∷ []
  contents-commit q v i ne e =
      let r = q.read_index in
      let m = q.max_read_index in
      let room = next_index-eq_iff_full r m q.size i.read_in i.max_in i.small in
      let below = used-lt r m q.size i.read_in i.max_in in
      let fits : used r m q.size + 1 < q.size =
        omega (arith, λ (f : used r m q.size + 1 ≡ q.size). ne (room.1 f)) in
      let grown : used r (next_index m q.size) q.size ≡ suc (used r m q.size) =
        omega (arith, used-commit r m q.size i.read_in i.max_in i.small fits) in
      ap (window q.arrdata q.size r) grown
      ∙ window_snoc q.size i.small q.arrdata r (used r m q.size) m v i.read_in below
          (sym (place-used r m q.size i.read_in i.max_in)) e

  -- A store past the window is not seen.
  pub contents-store :
      (q : Lfqueue A) (v : A)
      → IsIndexed q
      → contents (record q { arrdata = set q.arrdata q.max_read_index v }) ≡ contents q
  contents-store q v i =
      let r = q.read_index in
      let m = q.max_read_index in
      window-set_past q.size i.small q.arrdata r (used r m q.size) m v i.read_in
        (used-lt r m q.size i.read_in i.max_in) (sym (place-used r m q.size i.read_in i.max_in))

  -- The front of a window that is not empty, and what is left when it is taken.
  pub contents-take :
      (q : Lfqueue A) (v : A)
      → IsIndexed q
      → q.read_index ≢ q.max_read_index
      → get_elem? q.arrdata q.read_index ≡ some v
      → contents q ≡ v ∷ contents (record q { read_index = next_index q.read_index q.size })
  contents-take q v i ne e =
      let r = q.read_index in
      let m = q.max_read_index in
      let n = used r m q.size in
      let one_less = used-take r m q.size i.read_in i.max_in i.small ne in
      window_front q.size i.small q.arrdata r n v e (omega (arith, one_less))
      ∙ ap (λ k. v ∷ window q.arrdata q.size (next_index r q.size) k) (omega (arith, one_less))

  pub contents-nil : (q : Lfqueue A) → q.read_index ≡ q.max_read_index → contents q ≡ []
  contents-nil q e =
      ap (window q.arrdata q.size q.read_index) {x = used q.read_index q.max_read_index q.size}
        {y = 0} (ground arith)

  pub store-IsIndexed :
      (q : Lfqueue A) (i : ℕ) (v : A)
      → IsIndexed q
      → IsIndexed (record q { arrdata = set q.arrdata i v })
  store-IsIndexed q i v x = ground (arith, length-set q.arrdata i v)

  pub commit-IsIndexed :
      (q : Lfqueue A)
      → IsIndexed q
      → IsIndexed (record q { max_read_index = next_index q.max_read_index q.size })
  commit-IsIndexed q x = ground (arith, next_index-lt q.max_read_index q.size)

  pub take-IsIndexed :
      (q : Lfqueue A)
      → IsIndexed q
      → IsIndexed (record q { read_index = next_index q.read_index q.size })
  take-IsIndexed q x = ground (arith, next_index-lt q.read_index q.size)
