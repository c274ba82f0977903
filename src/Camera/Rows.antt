-- ===== src/Camera/Rows.antt =====
-- The row order of a rendered image (the loop over rows in `render_loop` of
-- mujoco/module/Camera/src/Camera.cpp). A buffer is a function of its index.
use nusim.Base.{
  ℕ, zero, suc, ◌+◌, ◌-◌, ◌*◌, ◌<◌, ◌≡◌, refl, ◌∙◌, subst, ◌&&◌, arith, ltb, leb, if◌then◌else◌,
}

-- memcpy(dst, src, n), with both as offsets.
unfoldable pub copy_bytes : (ℕ → ℕ) → ℕ → ℕ → ℕ → (ℕ → ℕ) → ℕ → ℕ
copy_bytes raw src dst n flipped j =
    if leb dst j && ltb j (dst + n) then raw (src + (j - dst)) else flipped j

-- The loop from a row on, `left` rows to go.
unfoldable pub flip_rows : ℕ → ℕ → ℕ → ℕ → (ℕ → ℕ) → (ℕ → ℕ) → ℕ → ℕ
unfolding copy_bytes
flip_rows width height row zero raw flipped = flipped
flip_rows width height row (suc left) raw flipped =
    flip_rows width height (suc row) left raw
      (copy_bytes raw ((height - 1 - row) * width * 3) (row * width * 3) (width * 3) flipped)

unfoldable pub flip : ℕ → ℕ → (ℕ → ℕ) → (ℕ → ℕ) → ℕ → ℕ
unfolding flip_rows
flip width height raw flipped = flip_rows width height 0 height raw flipped

-- The rows before the loop's are left alone.
flip_rows-before :
    (width height row left : ℕ) (raw flipped : ℕ → ℕ) (j : ℕ)
    → j < row * width * 3
    → flip_rows width height row left raw flipped j ≡ flipped j
unfolding flip_rows copy_bytes
flip_rows-before width height row zero raw flipped j h = refl
flip_rows-before width height row (suc left) raw flipped j h =
    flip_rows-before width height (suc row) left raw _ j (grind arith) ∙ ground arith

copy_bytes-at :
    (raw : ℕ → ℕ) (src dst n c : ℕ) (flipped : ℕ → ℕ)
    → c < n
    → copy_bytes raw src dst n flipped (dst + c) ≡ raw (src + c)
unfolding copy_bytes
copy_bytes-at raw src dst n c flipped h = ground (arith, offset)
  where
    offset : dst + c - dst ≡ c
    offset = omega arith

-- A row of the loop is the row opposite.
flip_rows-at :
    (width height row left k c : ℕ) (raw flipped : ℕ → ℕ)
    → k < left
    → c < width * 3
    → flip_rows width height row left raw flipped ((row + k) * width * 3 + c)
      ≡ raw ((height - 1 - (row + k)) * width * 3 + c)
unfolding flip_rows
flip_rows-at width height row zero k c raw flipped h g = elim h [ ]
flip_rows-at width height row (suc left) zero c raw flipped h g =
    subst
      (λ r.
        flip_rows width height row (suc left) raw flipped (r * width * 3 + c)
        ≡ raw ((height - 1 - r) * width * 3 + c))
      (omega arith)
      (flip_rows-before width height (suc row) left raw _ (row * width * 3 + c) (grind arith)
        ∙ copy_bytes-at raw ((height - 1 - row) * width * 3) (row * width * 3) (width * 3) c flipped
            g)
flip_rows-at width height row (suc left) (suc k) c raw flipped h g =
    subst
      (λ r.
        flip_rows width height row (suc left) raw flipped (r * width * 3 + c)
        ≡ raw ((height - 1 - r) * width * 3 + c))
      (omega arith) (flip_rows-at width height (suc row) left k c raw _ (omega arith) g)

-- In an image of some width and height, each byte of each row is the byte that stood at the same
-- place of the row opposite.
pub flip-at :
    (width height row c : ℕ) (raw flipped : ℕ → ℕ)
    → row < height
    → c < width * 3
    → flip width height raw flipped (row * width * 3 + c) ≡ raw ((height - 1 - row) * width * 3 + c)
unfolding flip
flip-at width height row c raw flipped h g =
    subst
      (λ k.
        flip_rows width height 0 height raw flipped (k * width * 3 + c)
        ≡ raw ((height - 1 - k) * width * 3 + c))
      (omega arith) (flip_rows-at width height 0 height row c raw flipped h g)
