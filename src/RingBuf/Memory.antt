-- ===== src/RingBuf/Memory.antt =====
-- Reading what was copied into the two mappings.
use lxc.Base.{
  ℕ, zero, suc, ◌+◌, ◌-◌, ◌*◌, ◌≤◌, ◌<◌, ◌≡◌, refl, ap, ap₂, ◌∙◌, Bytes, [], ◌∷◌, ◌++◌, length,
  take, drop, arith,
}
use lxc.RingBuf.{cell, read_from, store, copy_to}

cons_head : (x y : ℕ) (s t : Bytes) → ◌≡◌ {A = Bytes} (x ∷ s) (y ∷ t) → x ≡ y
cons_head x y s t h = cc

module _ (size : ℕ) where
  pub length-read_from : (mem : ℕ → ℕ) (off n : ℕ) → length (read_from mem size off n) ≡ n
  length-read_from mem off zero = refl
  length-read_from mem off (suc n) = ap suc (length-read_from mem (off + 1) n)

  pub read_from_congr :
      (mem : ℕ → ℕ) (a b m n : ℕ) → a ≡ b → m ≡ n → read_from mem size a m ≡ read_from mem size b n
  read_from_congr mem a b m n e f = rw (e, f)

  pub read_from-append :
      (mem : ℕ → ℕ) (off n k : ℕ)
      → read_from mem size off (n + k) ≡ read_from mem size off n ++ read_from mem size (off + n) k
  read_from-append mem off zero k = read_from_congr mem _ _ _ _ (omega arith) (omega arith)
  read_from-append mem off (suc n) k =
      read_from_congr mem off off (suc n + k) (suc (n + k)) refl (omega arith)
      ∙ ap (λ (t : Bytes). mem (cell size off) ∷ t)
          (read_from-append mem (off + 1) n k
            ∙ ap (λ (t : Bytes). read_from mem size (off + 1) n ++ t)
                (read_from_congr mem (off + 1 + n) (off + suc n) k k (omega arith) refl))

  -- A store elsewhere is not seen.
  read_from-store :
      (mem : ℕ → ℕ) (i c off n : ℕ)
      → off + n ≤ i
      → i < off + size
      → i < 2 * size
      → read_from (store mem (cell size i) c) size off n ≡ read_from mem size off n
  read_from-store mem i c off zero h k l = refl
  read_from-store mem i c off (suc n) h k l =
      ap₂ ◌∷◌ (ground arith) (read_from-store mem i c (off + 1) n (omega arith) (omega arith) l)

  pub read_from-copy_to_before :
      (mem : ℕ → ℕ) (off : ℕ) (msg : Bytes) (o n : ℕ)
      → o + n ≤ off
      → off + length msg ≤ o + size
      → off + length msg ≤ 2 * size
      → read_from (copy_to mem size off msg) size o n ≡ read_from mem size o n
  read_from-copy_to_before mem off [] o n h k l = refl
  read_from-copy_to_before mem off (c ∷ msg) o n h k l =
      read_from-copy_to_before (store mem (cell size off) c) (off + 1) msg o n (omega arith)
        (omega arith) (omega arith)
      ∙ read_from-store mem off c o n h (omega arith) (omega arith)

  pub read_from-copy_to :
      (mem : ℕ → ℕ) (off : ℕ) (msg : Bytes)
      → length msg ≤ size
      → off + length msg ≤ 2 * size
      → read_from (copy_to mem size off msg) size off (length msg) ≡ msg
  read_from-copy_to mem off [] h k = refl
  read_from-copy_to mem off (c ∷ msg) h k =
      let mem' = store mem (cell size off) c in
      ap₂ ◌∷◌
        (cons_head _ _ _ _ (
            read_from-copy_to_before mem' (off + 1) msg off 1 (omega arith) (omega arith)
              (omega arith))
          ∙ ground arith)
        (read_from-copy_to mem' (off + 1) msg (omega arith) (omega arith))

  -- The second mapping shows the same bytes.
  pub read_from-shift :
      (mem : ℕ → ℕ) (off n : ℕ)
      → off + n ≤ size
      → read_from mem size (off + size) n ≡ read_from mem size off n
  read_from-shift mem off zero h = refl
  read_from-shift mem off (suc n) h = ap₂ ◌∷◌ (ap mem (ground arith)) (
      read_from_congr mem (off + size + 1) (off + 1 + size) n n (omega arith) refl
      ∙ read_from-shift mem (off + 1) n (omega arith))

  pub drop-read_from :
      (mem : ℕ → ℕ) (off k n : ℕ)
      → drop k (read_from mem size off (k + n)) ≡ read_from mem size (off + k) n
  drop-read_from mem off zero n = read_from_congr mem _ _ _ _ (omega arith) (omega arith)
  drop-read_from mem off (suc k) n =
      ap (drop (suc k)) (read_from_congr mem off off (suc k + n) (suc (k + n)) refl (omega arith))
      ∙ drop-read_from mem (off + 1) k n
      ∙ read_from_congr mem (off + 1 + k) (off + suc k) n n (omega arith) refl

  -- A copy behind what is read is appended to it.
  pub read_from-copy_to_append :
      (mem : ℕ → ℕ) (o w : ℕ) (msg : Bytes)
      → o ≤ w
      → w + length msg ≤ o + size
      → w + length msg ≤ 2 * size
      → read_from (copy_to mem size w msg) size o (w + length msg - o)
        ≡ read_from mem size o (w - o) ++ msg
  read_from-copy_to_append mem o w msg h k l =
      let mem' = copy_to mem size w msg in
      read_from_congr mem' o o (w + length msg - o) (w - o + length msg) refl (omega arith)
      ∙ read_from-append mem' o (w - o) (length msg)
      ∙ ap₂ ◌++◌ (read_from-copy_to_before mem w msg o (w - o) (omega arith) k l) (
          read_from_congr mem' (o + (w - o)) w (length msg) (length msg) (omega arith) refl
          ∙ read_from-copy_to mem w msg (omega arith) l)

  drop-append_le : (k : ℕ) (xs ys : Bytes) → k ≤ length xs → drop k (xs ++ ys) ≡ drop k xs ++ ys
  drop-append_le zero xs ys h = refl
  drop-append_le (suc k) [] ys h = absurd (omega arith)
  drop-append_le (suc k) (x ∷ xs) ys h = drop-append_le k xs ys (omega arith)

  -- What is left of the bytes in front when the first `k` are given up.
  pub drop-read_from_append :
      (mem : ℕ → ℕ) (o k n : ℕ) (msg : Bytes)
      → k ≤ n
      → drop k (read_from mem size o n ++ msg) ≡ read_from mem size (o + k) (n - k) ++ msg
  drop-read_from_append mem o k n msg h =
      drop-append_le k (read_from mem size o n) msg (omega (arith, length-read_from mem o n))
      ∙ ap (λ (t : Bytes). t ++ msg)
          (ap (drop k) (read_from_congr mem o o n (k + (n - k)) refl (omega arith))
            ∙ drop-read_from mem o k (n - k))

  pub take-read_from :
      (mem : ℕ → ℕ) (off n k : ℕ)
      → n ≤ k
      → take n (read_from mem size off k) ≡ read_from mem size off n
  take-read_from mem off zero k h = refl
  take-read_from mem off (suc n) zero h = absurd (omega arith)
  take-read_from mem off (suc n) (suc k) h =
      ap (λ (t : Bytes). mem (cell size off) ∷ t) (take-read_from mem (off + 1) n k (omega arith))
