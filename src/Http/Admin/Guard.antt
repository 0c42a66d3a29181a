-- ===== src/Http/Admin/Guard.antt =====
-- What has to hold before `admin_request_cb` runs a command, and what the command may change.
use ximg.Prelude.{
  true, false, Bytes, Option, some, ◌==◌, codes, ◌≡◌, ◌⊎◌, refl, sym, subst, Bool-cases,
  Option-cases, inl, inr,
}
use ximg.Access.{ok}
use ximg.Http.{
  Request, Response, Server, method_of, method_get, method_post, access_check, client,
  reply_notfound,
}
use ximg.Http.Admin.{admin_command, admin_path, admin_checked, admin_request_cb, command_type}
use ximg.Http.Replied.{Verdict-cases}
use ximg.Key.{is_md5}
use ximg.Text.{str_lcpy}
use ximg.Upload.Form.{occurs}

-- The access rules for administration allow the client, the query `find` has the key `md5`, which is
-- one, and the command is run on it.
pub record IsCommand {W : Type 0} (s : Server W) (w : W) (req : Request) (r : Response)
    (result : W × Response) : Type 0 where
  pub access : access_check s.settings.admin_access (client s.inet_aton req) ≡ ok
  pub find : Bytes → Option Bytes
  pub query : req.query ≡ some find
  pub str_md5 : Bytes
  pub has_md5 : find (codes "md5") ≡ some str_md5
  pub is_key : is_md5 (str_lcpy str_md5 33) ≡ true
  pub ran : result.0 ≡ (s.admin_img w (str_lcpy str_md5 33) (command_type find) r).0

module _ {W : Type 0} (s : Server W) (w : W) (req : Request) (r : Response) where
  abbrev Guarded : W × Response → Type 0
  Guarded result = (result.0 ≡ w) ⊎ IsCommand s w req r result

  admin_command-Guarded :
      access_check s.settings.admin_access (client s.inet_aton req) ≡ ok
      → (find : Bytes → Option Bytes) → req.query ≡ some find
      → Guarded (admin_command s w find r)
  unfolding admin_command
  admin_command-Guarded a find q = elim (Option-cases (find (codes "md5"))) [
    | inl e ↦ rw (admin_command, e) (inl refl)
    | inr (str_md5, e) ↦ elim (Bool-cases (is_md5 (str_lcpy str_md5 33))) [
      | inr no_key ↦ rw (admin_command, e, no_key) (inl refl)
      | inl key ↦
          let same : (admin_command s w find r).0
              ≡ (s.admin_img w (str_lcpy str_md5 33) (command_type find) r).0 =
            rw (admin_command, e, key) refl in
          inr (record {
            access = a;
            find = find;
            query = q;
            str_md5 = str_md5;
            has_md5 = e;
            is_key = key;
            ran = same;
          })
    ]
  ]

  admin_checked-Guarded : Guarded (admin_checked s w req r)
  unfolding admin_checked admin_path
  admin_checked-Guarded =
      elim (Verdict-cases (access_check s.settings.admin_access (client s.inet_aton req))) [
        | inr e ↦ rw (admin_checked, e) (inl refl)
        | inl e ↦ elim (Bool-cases (occurs (codes "favicon.ico") req.path)) [
          | inl icon ↦ rw (admin_checked, e, icon) (inl refl)
          | inr no_icon ↦ elim (Option-cases req.query) [
            | inl q ↦ rw (admin_checked, e, admin_path, no_icon, q) (inl refl)
            | inr (find, q) ↦
                let same : admin_checked s w req r ≡ admin_command s w find r =
                  rw (admin_checked, e, admin_path, no_icon, q) refl in
                subst Guarded (sym same) (admin_command-Guarded e find q)
          ]
        ]
      ]

  -- A request that is no POST leaves the outside as it is, unless the access rules for administration allow
  -- the client and the parameter `md5` is a key. Then the outside is changed by the command `t` on that
  -- key and by nothing else.
  pub admin_request_cb-Guarded :
      (method_of req == method_post) ≡ false
      → (result : W × Response) × (admin_request_cb s w req r ≡ some result)
        × ((result.0 ≡ w) ⊎ IsCommand s w req r result)
  unfolding admin_request_cb
  admin_request_cb-Guarded other = elim (Bool-cases (method_of req == method_get)) [
    | inl get ↦ rw (other, get) (admin_checked s w req r, refl, admin_checked-Guarded)
    | inr none_of ↦ rw (other, none_of) ((w, reply_notfound s.settings r), refl, inl refl)
  ]
