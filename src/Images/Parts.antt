-- ===== src/Images/Parts.antt =====
-- What `get_img` (src/zimg.c) and `get_img_mode_db` (src/zdb.c) have in common. Memory is always given.
use ximg.Prelude.{
  Bool, true, false, ◌&&◌, ◌||◌, List, [], ◌∷◌, ◌++◌, Bytes, length, none, some, ltb, ◌==◌,
  if◌then◌else◌, codes, ◌≡◌, ◌⊎◌, refl, inl, inr, Bool-cases, Option-cases,
}
use ximg.Prelude.Int.{ℤ, pos, negsuc, ◌==ℤ◌}
use ximg.Cache.{CacheClient, set_cache_bin}
use ximg.Http.{Request, Response, add_text, zimg_etag_set, md5_text}
use ximg.Text.{starts_with}
use ximg.Images.{Magick, Converted}
use ximg.Settings.{ZimgReq, Settings, cache_max_size}

-- `settings.script_on == 1 && req->type != NULL`
abbrev pub scripted : Settings → ZimgReq → Bool
scripted st zr = elim zr.file_type [ none ↦ false | some t ↦ st.script_on == 1 ]

-- The request for the original image.
abbrev pub is_original : ZimgReq → Bool
is_original zr = zr.width ==ℤ pos 0 && (zr.height ==ℤ pos 0 && zr.proportion ==ℤ pos 0)

-- The call of one of the conversions.
unfoldable pub run_convert : {W M : Type 0} → Magick W M → Settings → ZimgReq → M → M × Converted
run_convert mg st zr im = if scripted st zr then mg.lua_convert st zr im else mg.convert st zr im

abbrev pub typed : ZimgReq → Bool
typed zr = elim zr.file_type [ none ↦ false | some t ↦ true ]

-- The conditions on `save_new`.
abbrev pub wants_save : Settings → ZimgReq → Bool
wants_save st zr = zr.sv == 1 || (st.save_new == 1 || (st.save_new == 2 && typed zr))

-- `if (len < CACHE_MAX_SIZE) set_cache_bin(...)`
unfoldable pub cache_small : {W : Type 0} → CacheClient W → W → Bytes → Bytes → W
cache_small cache w key buff =
    if ltb (length buff) cache_max_size then (set_cache_bin cache w key buff).0 else w

abbrev pub fail : ℤ
fail = negsuc 0

-- From the label `done` to `evbuffer_add`: the response, and the result 1 or 2.
unfoldable pub serve : Settings → Request → Bytes → Response → Response × ℤ
serve st req buff r =
    if st.etag == 1
    then (let t = zimg_etag_set req buff r in
        if t.1 then (t.0, pos 2) else (add_text buff t.0, pos 1))
    else (add_text buff r, pos 1)

-- The answer with the bytes `v`: the result 1 with `v` behind what is in the buffer, or the result 2 with no
-- byte more, for a request whose `If-None-Match` starts with the digest of `v`.
abbrev pub IsSent : Bytes → Request → Response → Response × ℤ → Type 0
IsSent v req r sent =
    ((sent.1 ≡ pos 1) × (sent.0.buffer_out ≡ r.buffer_out ++ v))
    ⊎ ((sent.1 ≡ pos 2)
        × (sent.0.buffer_out ≡ r.buffer_out)
        × ((tag : Bytes) × (req.headers_in (codes "If-None-Match") ≡ some tag)
            × (starts_with tag (md5_text v) ≡ true)))

pub serve-IsSent :
    (st : Settings) (req : Request) (v : Bytes) (r : Response) → IsSent v req r (serve st req v r)
unfolding serve zimg_etag_set
serve-IsSent st req v r = elim (Bool-cases (st.etag == 1)) [
  | inr off ↦ rw (serve, off) (inl (refl, refl))
  | inl on ↦ elim (Option-cases (req.headers_in (codes "If-None-Match"))) [
    | inl e ↦ rw (serve, on, zimg_etag_set, e) (inl (refl, refl))
    | inr (tag, e) ↦ elim (Bool-cases (starts_with tag (md5_text v))) [
      | inl known ↦ rw (serve, on, zimg_etag_set, e, known) (inr (refl, refl, (tag, refl, known)))
      | inr other ↦ rw (serve, on, zimg_etag_set, e, other) (inl (refl, refl))
    ]
  ]
]

abbrev pub with_world : {W : Type 0} → W → Response × ℤ → W × Response × ℤ
with_world w served = (w, served.0, served.1)

-- The texts with `gap` between them: the blanks of a C literal that is continued on the next line.
unfoldable pub join : Bytes → List Bytes → Bytes
join gap [] = []
join gap (line ∷ lines) =
    let rest = join gap lines in line ++ elim lines [ [] ↦ [] | next ∷ more ↦ gap ++ rest ]

-- The page that answers a command; `last` are the lines in front of the end.
unfoldable pub command_page : Bytes → Bytes → Bytes → Bytes → List Bytes → Bytes
unfolding join
command_page gap title md5 t last = join gap (
    (codes "<html><body><h1>" ++ (title ++ codes "</h1>"))
    ∷ (codes "<p>MD5: " ++ (md5 ++ codes "</p>"))
    ∷ (codes "<p>Command Type: " ++ (t ++ codes "</p>"))
    ∷ (last ++ (codes "</body></html>" ∷ [])))
