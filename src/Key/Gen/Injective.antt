-- ===== src/Key/Gen/Injective.antt =====
-- Requests with different numbers or formats have different keys, where the key is not cut off.
use ximg.Prelude.{
  ℕ, zero, suc, ◌≤◌, ◌&&◌, Bool, true, false, List, [], ◌∷◌, ◌++◌, Bytes, length, take, All, none,
  some, ◌==◌, if◌then◌else◌, ◌≡◌, refl, sym, ap, ap₂, ◌∙◌, arith, Bool-cases, inl, inr, ◌⊎◌,
  Option-cases, append_assoc, take_all,
}
use ximg.Prelude.Int.{ℤ, IsInt}
use ximg.Text.{str_lcpy}
use ximg.Settings.{ZimgReq, Settings}
use ximg.Key.Gen.{
  int_text, clip, gen_key_loop, gen_key, is_zero, key_args, plain_key, rsp_cache_key,
}
use ximg.Key.Gen.Int.{int_text_injective, NoColon-int_text}

-- The parts of a key behind its first colon.
abbrev pub args_tail : List ℤ → Bytes → Bytes
args_tail [] fmt = fmt
args_tail (a ∷ rest) fmt = int_text a ++ (b':' ∷ args_tail rest fmt)

abbrev pub args_text : List ℤ → Bytes → Bytes
args_text args fmt = b':' ∷ args_tail args fmt

clip-append : (n : ℕ) (xs ys : Bytes) → take n (take n xs ++ ys) ≡ take n (xs ++ ys)
clip-append zero xs ys = refl
clip-append (suc n) [] ys = refl
clip-append (suc n) (x ∷ xs) ys = ap (◌∷◌ x) (clip-append n xs ys)

clip-clip : (n : ℕ) (xs : Bytes) → take n (take n xs) ≡ take n xs
clip-clip zero xs = refl
clip-clip (suc n) [] = refl
clip-clip (suc n) (x ∷ xs) = ap (◌∷◌ x) (clip-clip n xs)

gen_key_loop-clip :
    (key : Bytes) (args : List ℤ) (fmt : Bytes)
    → clip (gen_key_loop (clip key) args ++ (b':' ∷ fmt)) ≡ clip (key ++ args_text args fmt)
unfolding gen_key_loop
gen_key_loop-clip key [] fmt = clip-append 127 key (b':' ∷ fmt)
gen_key_loop-clip key (a ∷ args) fmt =
    let cut : clip (clip (clip key ++ (b':' ∷ int_text a))) ≡ clip (key ++ (b':' ∷ int_text a)) =
      clip-clip 127 (clip key ++ (b':' ∷ int_text a)) ∙ clip-append 127 key (b':' ∷ int_text a) in
    rw cut (
      gen_key_loop-clip (key ++ (b':' ∷ int_text a)) args fmt
      ∙ ap clip (append_assoc key (b':' ∷ int_text a) (args_text args fmt)))

-- `gen_key` gives the first 127 bytes of the whole key.
pub gen_key-clip :
    (md5 : Bytes) (a : ℤ) (args : List ℤ) (fmt : Bytes)
    → gen_key md5 (a ∷ args) fmt ≡ clip (md5 ++ args_text (a ∷ args) fmt)
unfolding gen_key
gen_key-clip md5 a args fmt =
    clip-clip 127 (gen_key_loop (clip md5) (a ∷ args) ++ (b':' ∷ fmt))
    ∙ gen_key_loop-clip md5 (a ∷ args) fmt

abbrev NoColon : Bytes → Type 0
NoColon s = All (λ c. (c == b':') ≡ false) s

-- Two texts with no colon, each with one behind it.
split_colon :
    (s t x y : Bytes)
    → NoColon s
    → NoColon t
    → s ++ (b':' ∷ x) ≡ t ++ (b':' ∷ y)
    → (s ≡ t) × (x ≡ y)
split_colon [] [] x y hs ht e = (refl, cc)
split_colon [] (d ∷ t) x y hs ht e = absurd (ground (arith, ht.0, e))
split_colon (c ∷ s) [] x y hs ht e = absurd (ground (arith, hs.0, e))
split_colon (c ∷ s) (d ∷ t) x y hs ht e =
    let rest = split_colon s t x y hs.1 ht.1 (cc) in
    let same : c ≡ d = cc in (ap₂ ◌∷◌ same rest.0, rest.1)

not_split : (s t y : Bytes) → NoColon s → s ≡ t ++ (b':' ∷ y) → ◌≡◌ {A = ℕ} 0 1
not_split [] [] y h e = cc
not_split [] (d ∷ t) y h e = cc
not_split (c ∷ s) [] y h e = absurd (ground (arith, h.0, e))
not_split (c ∷ s) (d ∷ t) y h e = not_split s t y h.1 (cc)

args_tail_injective :
    (ns bs : List ℤ) (f g : Bytes)
    → All IsInt ns
    → All IsInt bs
    → length ns ≡ length bs
    → args_tail ns f ≡ args_tail bs g
    → (ns ≡ bs) × (f ≡ g)
args_tail_injective [] [] f g ha hb len e = (refl, e)
args_tail_injective [] (b ∷ bs) f g ha hb len e = absurd (omega arith)
args_tail_injective (a ∷ ns) [] f g ha hb len e = absurd (omega arith)
args_tail_injective (a ∷ ns) (b ∷ bs) f g ha hb len e =
    let parts =
      split_colon (int_text a) (int_text b) _ _ (NoColon-int_text a) (NoColon-int_text b) e in
    let rest = args_tail_injective ns bs f g ha.1 hb.1 (omega arith) parts.1 in
    (ap₂ ◌∷◌ (int_text_injective a b ha.0 hb.0 parts.0) rest.0, rest.1)

-- The image is wanted as it is.
abbrev pub wants_original : ZimgReq → Bool
wants_original r = is_zero r.proportion && (is_zero r.width && is_zero r.height)

-- The key with all of its parts, however long.
abbrev pub full_key : ZimgReq → Bytes
full_key r = if wants_original r then r.md5 else r.md5 ++ args_text (key_args r) r.fmt

-- A request with a key text for an image, numbers in the range of `int`, and a key that is not cut off.
pub record IsKeyed (r : ZimgReq) : Type 0 where
  pub md5_no_colon : NoColon r.md5
  pub ints : All IsInt (key_args r)
  pub fits : length (full_key r) ≤ 127

plain_key-full_key : (r : ZimgReq) → length (full_key r) ≤ 127 → plain_key r ≡ full_key r
unfolding plain_key str_lcpy
plain_key-full_key r fits = elim (Bool-cases (wants_original r)) [
  | inl e ↦ let short : length r.md5 ≤ 127 = rw e at fits in rw e (take_all 127 r.md5 short)
  | inr e ↦
      let short : length (r.md5 ++ args_text (key_args r) r.fmt) ≤ 127 = rw e at fits in
      rw e (
        gen_key-clip r.md5 r.width _ r.fmt
        ∙ take_all 127 (r.md5 ++ args_text (key_args r) r.fmt) short)
]

-- Two requests that ask for one image in one way.
abbrev pub AsksSame : ZimgReq → ZimgReq → Type 0
AsksSame r q =
    (r.md5 ≡ q.md5)
    × (wants_original r ≡ wants_original q)
    × ((wants_original r ≡ true) ⊎ ((key_args r ≡ key_args q) × (r.fmt ≡ q.fmt)))

full_key_injective :
    (r q : ZimgReq) → IsKeyed r → IsKeyed q → full_key r ≡ full_key q → AsksSame r q
full_key_injective r q hr hq e = elim (Bool-cases (wants_original r)) [
  | inl zr ↦ elim (Bool-cases (wants_original q)) [
    | inl zq ↦ (rw (zr, zq) at e, zr ∙ sym zq, inl zr)
    | inr nq ↦ absurd (omega (arith, not_split r.md5 q.md5 _ hr.md5_no_colon (rw (zr, nq) at e)))
  ]
  | inr nr ↦ elim (Bool-cases (wants_original q)) [
    | inl zq ↦
        absurd (omega (arith, not_split q.md5 r.md5 _ hq.md5_no_colon (sym (rw (nr, zq) at e))))
    | inr nq ↦
        let parts =
          split_colon r.md5 q.md5 _ _ hr.md5_no_colon hq.md5_no_colon (rw (nr, nq) at e) in
        (
          parts.0,
          nr ∙ sym nq,
          inr (
              args_tail_injective (key_args r) (key_args q) r.fmt q.fmt hr.ints hq.ints refl
                parts.1),
        )
  ]
]

-- Without a script, two requests whose keys are not cut off at 127 bytes have one cache key only if they
-- ask for one image in one way: as it is, or with the same numbers and the same format.
pub rsp_cache_key-AsksSame :
    (st : Settings) (r q : ZimgReq)
    → (st.script_on == 1) ≡ false
    → IsKeyed r
    → IsKeyed q
    → rsp_cache_key st r ≡ rsp_cache_key st q
    → AsksSame r q
unfolding rsp_cache_key plain_key
rsp_cache_key-AsksSame st r q off hr hq e = full_key_injective r q hr hq (
    sym (plain_key-full_key r hr.fits)
    ∙ sym (no_script r)
    ∙ e
    ∙ no_script q
    ∙ plain_key-full_key q hq.fits)
  where
    no_script : (r : ZimgReq) → rsp_cache_key st r ≡ plain_key r
    no_script r = elim (Option-cases r.file_type) [
      | inl n ↦ rw (n, rsp_cache_key)
      | inr (t, s) ↦ rw (s, off, rsp_cache_key)
    ]

-- With a script, a type that is spelled like the numbers and the format of a request has the key of that
-- request.
pub rsp_cache_key_clash :
    (st : Settings) (r q : ZimgReq)
    → (st.script_on == 1) ≡ true
    → wants_original r ≡ false
    → r.file_type ≡ none
    → q.md5 ≡ r.md5
    → q.file_type ≡ some (args_tail (key_args r) r.fmt)
    → rsp_cache_key st q ≡ rsp_cache_key st r
unfolding rsp_cache_key plain_key
rsp_cache_key_clash st r q script args no_type same spelled =
    rw (no_type, spelled, same, script, args) (sym (gen_key-clip r.md5 r.width _ r.fmt))
