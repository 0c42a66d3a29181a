-- ===== src/Scale.antt =====
-- src/zscale.c: `crop` and `convert`, with the calls of MagickWand as arguments. `proportion` computes
-- with floating-point numbers and is an argument. An `int` that meets an `unsigned long` becomes one.
pub mod Crop
use ximg.Prelude.{
  ℕ, ◌+◌, ◌-◌, ◌%◌, ◌^◌, Bool, true, false, not, ◌&&◌, ◌||◌, Bytes, Option, none, some, take, leb,
  ltb, ◌==◌, if◌then◌else◌, codes,
}
use ximg.Prelude.Int.{ℤ, pos, negsuc, pos_part, ◌==ℤ◌, ltb_ℤ}
use ximg.Prelude.Memory.{◌>>=◌}
use ximg.Http.{int_of_pos}
use ximg.Settings.{ZimgReq, Settings}
use ximg.Text.{starts_with}

-- An `int` as an `unsigned long`.
abbrev pub ulong : ℤ → ℕ
ulong (pos n) = n
ulong (negsuc n) = 2 ^ 64 - 1 - n

-- The sum of two `int` values, where it is one.
abbrev pub add_int : ℤ → ℤ → ℤ
add_int (pos a) (pos b) = pos (a + b)
add_int (pos a) (negsuc b) = if ltb b a then pos (a - (b + 1)) else negsuc (b - a)
add_int (negsuc a) (pos b) = if ltb a b then pos (b - (a + 1)) else negsuc (a - b)
add_int (negsuc a) (negsuc b) = negsuc (a + b + 1)

-- The arguments of `MagickCropImage`.
pub record Rectangle : Type 0 where
  pub cols : ℕ
  pub rows : ℕ
  pub x : ℕ
  pub y : ℕ

-- `if (x < 0) x = 0`
abbrev pub at_least_zero : ℤ → ℤ
at_least_zero (pos n) = pos n
at_least_zero (negsuc n) = pos 0

-- The new `cols` for the position `x` and the image's width; `rows` is computed in the same way. A
-- difference that is assigned to an `int` is cut to its 32 bits.
unfoldable pub fit : ℕ → ℤ → ℤ → ℤ
fit im_cols x cols =
    if cols ==ℤ pos 0 || ltb im_cols (ulong (add_int x cols))
    then int_of_pos (im_cols - ulong x)
    else cols

-- What `crop` asks MagickWand for; none is the result -1 in front of it.
unfoldable pub crop : ℕ → ℕ → ℤ → ℤ → ℤ → ℤ → Option Rectangle
unfolding fit
crop im_cols im_rows x y cols rows =
    let x = at_least_zero x in
    let y = at_least_zero y in
    if leb im_cols (ulong x) || leb im_rows (ulong y)
    then none
    else some (record {
      cols = ulong (fit im_cols x cols);
      rows = ulong (fit im_rows y rows);
      x = ulong x;
      y = ulong y;
    })

-- The calls on the wand; a result is `none` where it is not MagickTrue. `rotate_image` is the block that
-- makes the background, sets it to white and turns the image.
pub record Wand (M : Type 0) : Type 0 where
  pub width : M → ℕ
  pub height : M → ℕ
  pub reset_iterator : M → M
  pub orientation : M → ℕ
  pub auto_orient : M → Option M
  pub proportion : M → ℤ → ℤ → ℤ → Option M
  pub crop_image : M → Rectangle → Option M
  pub rotate_image : M → ℤ → Option M
  pub set_grayscale : M → Option M
  pub get_quality : M → ℤ
  pub set_quality : M → ℤ → Option M
  pub set_format : M → Bytes → Option M
  pub strip_image : M → Option M

module _ {M : Type 0} (wand : Wand M) where
  abbrev pub oriented : M → Option M
  oriented im = if ltb 1 (wand.orientation im) then wand.auto_orient im else some im

  abbrev pub cropped : ZimgReq → M → Option M
  cropped z im = do
    rectangle ← crop (wand.width im) (wand.height im) z.x z.y z.width z.height
    wand.crop_image im rectangle

  abbrev pub sized : ZimgReq → M → Option M
  sized z im =
      if z.width ==ℤ pos 0 && z.height ==ℤ pos 0
      then some im
      else if z.x ==ℤ negsuc 0 && z.y ==ℤ negsuc 0
      then wand.proportion im z.proportion z.width z.height
      else cropped z im

  abbrev pub rotated : ZimgReq → M → Option M
  rotated z im = if z.rotate ==ℤ pos 0 then some im else wand.rotate_image im z.rotate

  abbrev pub grayed : ZimgReq → M → Option M
  grayed z im = if z.gray ==ℤ pos 1 then wand.set_grayscale im else some im

  abbrev pub compressed : ZimgReq → M → Option M
  compressed z im =
      let quality = wand.get_quality im in
      if quality ==ℤ pos 0 || ltb_ℤ z.quality quality
      then wand.set_quality im z.quality
      else some im

  abbrev pub formatted : ZimgReq → M → Option M
  formatted z im = if starts_with z.fmt (codes "none") then some im else wand.set_format im z.fmt

  -- `none` is the result -1; the other result is always 1.
  unfoldable pub convert : ZimgReq → M → Option M
  convert z im =
      oriented (wand.reset_iterator im)
      >>= sized z
      >>= rotated z
      >>= grayed z
      >>= compressed z
      >>= formatted z
      >>= wand.strip_image
