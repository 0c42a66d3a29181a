-- ===== src/Http/Get/Asked.antt =====
-- Every image request can be asked for: `asked` reads back the parameters that name its values.
use ximg.Prelude.{
  true, false, ◌&&◌, Bytes, Option, none, some, ◌==◌, if◌then◌else◌, codes, ◌≡◌, ◌⊎◌, refl, sym, ap,
  ◌∙◌, arith, inl, inr,
}
use ximg.Prelude.Int.{ℤ, pos, negsuc, ◌==ℤ◌, IsInt}
use ximg.Http.Get.{int_param, default_req, with_args, with_type, with_quality, asked}
use ximg.Http.Number.{atoi-int_text}
use ximg.Key.Gen.{int_text}
use ximg.Settings.{ZimgReq, Settings}

-- The parameters of a query are the texts of the values of `z`.
pub record Names (find : Bytes → Option Bytes) (z : ZimgReq) : Type 0 where
  pub w : find (codes "w") ≡ some (int_text z.width)
  pub h : find (codes "h") ≡ some (int_text z.height)
  pub p : find (codes "p") ≡ some (int_text z.proportion)
  pub g : find (codes "g") ≡ some (int_text z.gray)
  pub x : find (codes "x") ≡ some (int_text z.x)
  pub y : find (codes "y") ≡ some (int_text z.y)
  pub r : find (codes "r") ≡ some (int_text z.rotate)
  pub q : find (codes "q") ≡ some (int_text z.quality)
  pub f : find (codes "f") ≡ some z.fmt
  pub t : find (codes "t") ≡ z.file_type

-- Its numbers are `int` values, its quality is not 0, a position comes with the proportion 1, and it is
-- not one to be saved by its own.
pub record IsAskable (z : ZimgReq) : Type 0 where
  pub width : IsInt z.width
  pub height : IsInt z.height
  pub proportion : IsInt z.proportion
  pub gray : IsInt z.gray
  pub x : IsInt z.x
  pub y : IsInt z.y
  pub rotate : IsInt z.rotate
  pub quality : IsInt z.quality
  pub some_quality : (z.quality ==ℤ pos 0) ≡ false
  pub position : ((z.x ==ℤ negsuc 0 && z.y ==ℤ negsuc 0) ≡ true) ⊎ (z.proportion ≡ pos 1)
  pub no_sv : z.sv ≡ 0

int_param_lem :
    (find : Bytes → Option Bytes) (name : Bytes) (d n : ℤ)
    → find name ≡ some (int_text n)
    → IsInt n
    → int_param find name d ≡ n
unfolding int_param
int_param_lem find name d n e h = rw (int_param, e) (atoi-int_text n h)

position_lem :
    (x y p : ℤ)
    → ((x ==ℤ negsuc 0 && y ==ℤ negsuc 0) ≡ true) ⊎ (p ≡ pos 1)
    → (if x ==ℤ negsuc 0 && y ==ℤ negsuc 0 then p else pos 1) ≡ p
position_lem x y p (inl e) = rw e refl
position_lem x y p (inr e) = ground (arith, e)

module _ (st : Settings) (find : Bytes → Option Bytes) (z : ZimgReq) (names : Names find z)
    (ok : IsAskable z) where
  with_args-Names :
      (st.disable_args == 1) ≡ false
      → with_args st find (default_req st z.md5) ≡ record z { file_type = none }
  unfolding with_args default_req
  with_args-Names args =
      let w = int_param_lem find (codes "w") (pos 0) z.width names.w ok.width in
      let h = int_param_lem find (codes "h") (pos 0) z.height names.h ok.height in
      let p = int_param_lem find (codes "p") (pos 1) z.proportion names.p ok.proportion in
      let g = int_param_lem find (codes "g") (pos 0) z.gray names.g ok.gray in
      let x = int_param_lem find (codes "x") (negsuc 0) z.x names.x ok.x in
      let y = int_param_lem find (codes "y") (negsuc 0) z.y names.y ok.y in
      let r = int_param_lem find (codes "r") (pos 0) z.rotate names.r ok.rotate in
      let q = int_param_lem find (codes "q") (pos 0) z.quality names.q ok.quality in
      let placed : (if int_param find (codes "x") (negsuc 0) ==ℤ negsuc 0
              && int_param find (codes "y") (negsuc 0) ==ℤ negsuc 0
            then int_param find (codes "p") (pos 1)
            else pos 1)
          ≡ z.proportion =
        rw (x, y, p) (position_lem z.x z.y z.proportion ok.position) in
      let format : elim (find (codes "f")) [ none ↦ st.format | some f ↦ f ] ≡ z.fmt =
        rw names.f refl in
      rw (with_args, args)
        (λ i. record {
          md5 = z.md5;
          file_type = none;
          width = w i;
          height = h i;
          proportion = placed i;
          gray = g i;
          x = x i;
          y = y i;
          rotate = r i;
          quality = q i;
          fmt = format i;
          sv = sym ok.no_sv i;
        })

  with_type-Names :
      (st.disable_type == 1) ≡ false → with_type st find (record z { file_type = none }) ≡ z
  unfolding with_type
  with_type-Names types = rw (with_type, types) (λ i. record z { file_type = names.t i })

  with_quality-Names : with_quality st z ≡ z
  unfolding with_quality
  with_quality-Names =
      let kept : (if z.quality ==ℤ pos 0 then st.quality else z.quality) ≡ z.quality =
        rw ok.some_quality refl in
      λ i. record z { quality = kept i }

  -- Where arguments and types are enabled, a query that names the values of an image request gives just
  -- that request, if its numbers are `int` values, its quality is not 0, a position comes with the
  -- proportion 1, and it is not one to be saved by its own.
  pub asked-Names :
      (st.disable_args == 1) ≡ false
      → (st.disable_type == 1) ≡ false
      → asked st z.md5 (some find) ≡ z
  unfolding asked
  asked-Names args types =
      ap (λ (a : ZimgReq). with_quality st (with_type st find a)) (with_args-Names args)
      ∙ ap (with_quality st) (with_type-Names types)
      ∙ with_quality-Names
