-- ===== src/Key/Gen/Original.antt =====
-- The key of a response: that of the image for the original, and behind a colon more for all others.
use ximg.Prelude.{
  ℕ, zero, suc, ◌≤◌, true, false, [], ◌∷◌, ◌++◌, Bytes, length, take, get_or, none, some, ◌==◌, ◌≡◌,
  refl, sym, ap, ◌∙◌, ◌⊎◌, arith, Bool-cases, Option-cases, inl, inr, take_all,
}
use ximg.Key.{is_md5}
use ximg.Settings.{ZimgReq, Settings}
use ximg.Key.Gen.{plain_key, rsp_cache_key}
use ximg.Key.Gen.Injective.{wants_original, gen_key-clip}
use ximg.Text.{str_lcpy}

-- The original image is asked for: there is no script for the type, and no size and proportion.
pub record IsOriginal (st : Settings) (z : ZimgReq) : Type 0 where
  pub no_script : elim z.file_type [ none ↦ false | some t ↦ st.script_on == 1 ] ≡ false
  pub plain : wants_original z ≡ true

take_more :
    (n : ℕ) (s : Bytes) (c : ℕ) (t : Bytes)
    → length s ≤ n
    → (more : Bytes) × (take (suc n) (s ++ (c ∷ t)) ≡ s ++ (c ∷ more))
take_more n [] c t h = (take n t, refl)
take_more zero (x ∷ s) c t h = absurd (omega (arith, h))
take_more (suc n) (x ∷ s) c t h =
    let (more, e) = take_more n s c t (omega (arith, h)) in (more, ap (◌∷◌ x) e)

get_or-append : (s : Bytes) (c : ℕ) (t : Bytes) → get_or (s ++ (c ∷ t)) (length s) 0 ≡ c
get_or-append [] c t = refl
get_or-append (x ∷ s) c t = get_or-append s c t

-- A text of 32 bytes with a colon behind it is no key.
pub no_key : (s t : Bytes) → length s ≡ 32 → is_md5 (s ++ (b':' ∷ t)) ≡ false
unfolding is_md5
no_key s t len =
    let at_end : get_or (s ++ (b':' ∷ t)) 32 0 ≡ b':' = rw (sym len) (get_or-append s b':' t) in
    ground (arith, at_end)

module _ (st : Settings) (z : ZimgReq) (len : length z.md5 ≡ 32) where
  plain_key-cases :
      ((wants_original z ≡ true) × (plain_key z ≡ z.md5))
      ⊎ ((more : Bytes) × (plain_key z ≡ z.md5 ++ (b':' ∷ more)))
  unfolding plain_key str_lcpy
  plain_key-cases = elim (Bool-cases (wants_original z)) [
    | inl e ↦ rw e (inl (refl, take_all 127 z.md5 (omega (arith, len))))
    | inr e ↦
        let (more, cut) = take_more 126 z.md5 b':' _ (omega (arith, len)) in
        rw e (inr (more, gen_key-clip z.md5 z.width _ z.fmt ∙ cut))
  ]

  abbrev Cases : Type 0
  Cases = (IsOriginal st z × (rsp_cache_key st z ≡ z.md5)) ⊎ (is_md5 (rsp_cache_key st z) ≡ false)

  by_plain :
      elim z.file_type [ none ↦ false | some t ↦ st.script_on == 1 ] ≡ false
      → rsp_cache_key st z ≡ plain_key z
      → Cases
  by_plain no_script e = elim plain_key-cases [
    | inl (original, same) ↦ inl (record { no_script = no_script; plain = original }, e ∙ same)
    | inr (more, same) ↦ inr (ap is_md5 (e ∙ same) ∙ no_key z.md5 more len)
  ]

  -- The key of a response is that of the image and the original is asked for, or it is no key of an image.
  pub rsp_cache_key-cases :
      (IsOriginal st z × (rsp_cache_key st z ≡ z.md5)) ⊎ (is_md5 (rsp_cache_key st z) ≡ false)
  unfolding rsp_cache_key plain_key
  rsp_cache_key-cases = elim (Option-cases z.file_type) [
    | inl e ↦ by_plain (rw e refl) (rw (rsp_cache_key, e) refl)
    | inr (t, e) ↦ elim (Bool-cases (st.script_on == 1)) [
      | inr no_script ↦ by_plain (rw (e, no_script) refl) (rw (rsp_cache_key, e, no_script) refl)
      | inl script ↦
          let (more, cut) = take_more 126 z.md5 b':' t (omega (arith, len)) in
          let same : rsp_cache_key st z ≡ z.md5 ++ (b':' ∷ more) =
            rw (rsp_cache_key, e, script) cut in
          inr (ap is_md5 same ∙ no_key z.md5 more len)
    ]
  ]

  plain_key-IsOriginal : wants_original z ≡ true → plain_key z ≡ z.md5
  unfolding plain_key str_lcpy
  plain_key-IsOriginal plain = rw plain (take_all 127 z.md5 (omega (arith, len)))

  pub rsp_cache_key-IsOriginal : IsOriginal st z → rsp_cache_key st z ≡ z.md5
  unfolding rsp_cache_key plain_key
  rsp_cache_key-IsOriginal o = elim (Option-cases z.file_type) [
    | inl e ↦
        let same : rsp_cache_key st z ≡ plain_key z = rw (rsp_cache_key, e) refl in
        same ∙ plain_key-IsOriginal o.plain
    | inr (t, e) ↦
        let no_script : (st.script_on == 1) ≡ false = rw e at o.no_script in
        let same : rsp_cache_key st z ≡ plain_key z = rw (rsp_cache_key, e, no_script) refl in
        same ∙ plain_key-IsOriginal o.plain
  ]
