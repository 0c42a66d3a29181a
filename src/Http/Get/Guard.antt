-- ===== src/Http/Get/Guard.antt =====
-- What has to hold before `get_request_cb` asks for an image.
use ximg.Prelude.{
  true, false, ◌&&◌, length, get_or, some, ◌==◌, codes, ◌≡◌, ◌⊎◌, refl, Bool-cases, inl, inr,
}
use ximg.Access.{ok}
use ximg.Http.{
  Request, Response, Server, method_of, method_get, method_post, access_check, client,
  reply_notfound,
}
use ximg.Http.Get.{answer_img, get_key, get_path, get_checked, get_request_cb, key_of, asked}
use ximg.Http.Replied.{Verdict-cases}
use ximg.Key.{is_md5}
use ximg.Upload.Form.{occurs}

-- The access rules allow the client, the path has no `..` and is a key behind its slash.
pub record IsAllowed {W : Type 0} (s : Server W) (req : Request) : Type 0 where
  pub access : access_check s.settings.down_access (client s.inet_aton req) ≡ ok
  pub no_upper : occurs (codes "..") req.path ≡ false
  pub is_key : is_md5 (key_of req.path) ≡ true

-- The outside is as it was, or an allowed request was answered from what `get_img` gives.
abbrev pub Guarded : {W : Type 0} → Server W → W → Request → Response → W × Response → Type 0
Guarded s w req r result =
    (result.0 ≡ w)
    ⊎ (IsAllowed s req
        × (result
            ≡ answer_img s.settings
                (s.get_img w (asked s.settings (key_of req.path) req.query) req r)))

module _ {W : Type 0} (s : Server W) (w : W) (req : Request) (r : Response) where
  get_path-Guarded :
      access_check s.settings.down_access (client s.inet_aton req) ≡ ok
      → Guarded s w req r (get_path s w req r)
  unfolding get_path get_key
  get_path-Guarded a = elim (Bool-cases (length req.path == 1 && get_or req.path 0 0 == b'/')) [
    | inl root ↦ rw root (inl refl)
    | inr other ↦ elim (Bool-cases (occurs (codes "favicon.ico") req.path)) [
      | inl icon ↦ rw (other, icon) (inl refl)
      | inr no_icon ↦ elim (Bool-cases (occurs (codes "..") req.path)) [
        | inl up ↦ rw (other, no_icon, up) (inl refl)
        | inr down ↦ elim (Bool-cases (is_md5 (key_of req.path))) [
          | inr no_key ↦ rw (other, no_icon, down, no_key) (inl refl)
          | inl key ↦
              let allowed : IsAllowed s req = record {
                access = a;
                no_upper = down;
                is_key = key;
              } in
              let same : get_path s w req r
                  ≡ answer_img s.settings
                      (s.get_img w (asked s.settings (key_of req.path) req.query) req r) =
                rw (other, no_icon, down, key) refl in
              inr (allowed, same)
        ]
      ]
    ]
  ]

  get_checked-Guarded : Guarded s w req r (get_checked s w req r)
  unfolding get_checked
  get_checked-Guarded =
      elim (Verdict-cases (access_check s.settings.down_access (client s.inet_aton req))) [
        | inl e ↦ rw (get_checked, e) (get_path-Guarded e)
        | inr e ↦ rw (get_checked, e) (inl refl)
      ]

  -- A request that is no POST leaves the outside as it is, unless the access rules allow the client, the
  -- path has no `..` and is a key behind its first slash. Then the result is made from what `get_img`
  -- gives for that key and the parameters.
  pub get_request_cb-Guarded :
      (method_of req == method_post) ≡ false
      → (result : W × Response) × (get_request_cb s w req r ≡ some result)
        × Guarded s w req r result
  unfolding get_request_cb
  get_request_cb-Guarded other = elim (Bool-cases (method_of req == method_get)) [
    | inl get ↦ rw (other, get) (get_checked s w req r, refl, get_checked-Guarded)
    | inr none_of ↦ rw (other, none_of) ((w, reply_notfound s.settings r), refl, inl refl)
  ]
