-- ===== src/Scale/Crop.antt =====
-- The rectangle that `crop` asks for.
use ximg.Prelude.{
  ℕ, ◌+◌, ◌-◌, ◌^◌, ◌<◌, ◌≤◌, ◌||◌, none, some, leb, ltb, ◌≡◌, subst, arith, Bool-cases, inl, inr,
}
use ximg.Prelude.Int.{ℤ, pos, negsuc, ◌==ℤ◌}
use ximg.Http.{int_of_pos}
use ximg.Http.Number.{int_of_pos_lem}
use ximg.Scale.{Rectangle, crop, fit, ulong}

-- The rectangle is not empty and lies inside the image.
pub record IsInside (im_cols im_rows : ℕ) (r : Rectangle) : Type 0 where
  pub some_cols : 0 < r.cols
  pub some_rows : 0 < r.rows
  pub right : r.x + r.cols ≤ im_cols
  pub bottom : r.y + r.rows ≤ im_rows

fit_inside :
    (size x cols : ℕ)
    → size < 2 ^ 31
    → x < size
    → (0 < ulong (fit size (pos x) (pos cols))) × (x + ulong (fit size (pos x) (pos cols)) ≤ size)
unfolding fit
fit_inside size x cols small h =
    let rest : int_of_pos (size - x) ≡ pos (size - x) =
      int_of_pos_lem (size - x) (omega (arith, small)) in
    elim (Bool-cases (pos cols ==ℤ pos 0 || ltb size (x + cols))) [
      | inl e ↦ rw (e, rest) (omega (arith, h), omega (arith, h))
      | inr e ↦ rw e (ground (arith, e), ground (arith, e))
    ]

module _ (im_cols im_rows cols rows : ℕ) (hc : im_cols < 2 ^ 31) (hr : im_rows < 2 ^ 31) where
  crop_at :
      (x y : ℕ) (r : Rectangle)
      → crop im_cols im_rows (pos x) (pos y) (pos cols) (pos rows) ≡ some r
      → IsInside im_cols im_rows r
  unfolding crop
  crop_at x y r e = elim (Bool-cases (leb im_cols x || leb im_rows y)) [
    | inl out ↦ let bad : none ≡ some r = rw out at e in cc
    | inr within ↦
        let left : x < im_cols = ground (arith, within) in
        let top : y < im_rows = ground (arith, within) in
        let found : some (record {
          cols = ulong (fit im_cols (pos x) (pos cols));
          rows = ulong (fit im_rows (pos y) (pos rows));
          x = x;
          y = y;
        })
            ≡ some r =
          rw within at e in
        let c = fit_inside im_cols x cols hc left in
        let w = fit_inside im_rows y rows hr top in
        some_inside _ r found
          (record { some_cols = c.0; some_rows = w.0; right = c.1; bottom = w.1 })
  ]
    where
      some_inside :
          (q r : Rectangle)
          → some q ≡ some r
          → IsInside im_cols im_rows q
          → IsInside im_cols im_rows r
      some_inside q r e h = let same : q ≡ r = cc in subst (IsInside im_cols im_rows) same h

  -- For an image below 2 ^ 31 in each direction and a size that is not negative, whatever the position is,
  -- `crop` refuses or asks for a rectangle that is not empty and lies inside the image.
  pub crop-IsInside :
      (x y : ℤ) (r : Rectangle)
      → crop im_cols im_rows x y (pos cols) (pos rows) ≡ some r
      → IsInside im_cols im_rows r
  unfolding crop
  crop-IsInside (pos x) (pos y) r e = crop_at x y r e
  crop-IsInside (pos x) (negsuc y) r e = crop_at x 0 r e
  crop-IsInside (negsuc x) (pos y) r e = crop_at 0 y r e
  crop-IsInside (negsuc x) (negsuc y) r e = crop_at 0 0 r e
