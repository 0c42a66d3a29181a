-- ===== src/Http/Replied.antt =====
-- One reply for each request: what the ends of the handlers do to the list of replies.
use ximg.Prelude.{
  ℕ, Bool, true, ◌||◌, List, [], ◌∷◌, ◌++◌, Bytes, Option, none, some, ◌==◌, ◌≡◌, refl, ap, ◌⊎◌,
  inl, inr,
}
use ximg.Http.{
  Response, Server, add_headers, zimg_headers_add, reply_forbidden, reply_notfound, reply_favicon,
  reply_page, reply_error, json_return, add_header,
}
use ximg.Access.{Verdict, ok, forbidden}
use ximg.Settings.{Settings}

abbrev pub is_code : ℕ → Bool
is_code c = c == 200 || (c == 304 || (c == 403 || c == 404))

-- Exactly one more reply was sent, with one of the codes of the server.
abbrev pub Replied : Response → Response → Type 0
Replied r r' = (c : ℕ) × (r'.replies ≡ r.replies ++ (c ∷ [])) × (is_code c ≡ true)

-- A handler's result that is defined has one more reply.
abbrev pub Answered : {W : Type 0} → Response → Option (W × Response) → Type 0
Answered {W} r o = (w : W) × (r' : Response) × (o ≡ some (w, r')) × Replied r r'

add_headers-replies :
    (hs : List (Bytes × Bytes)) (r : Response) → (add_headers hs r).replies ≡ r.replies
unfolding add_headers
add_headers-replies [] r = refl
add_headers-replies ((k, v) ∷ hs) r = add_headers-replies hs (add_header k v r)

pub zimg_headers_add-replies :
    (o : Option (List (Bytes × Bytes))) (r : Response) → (zimg_headers_add o r).replies ≡ r.replies
unfolding zimg_headers_add
zimg_headers_add-replies none r = refl
zimg_headers_add-replies (some hs) r = add_headers-replies hs r

-- One code behind the same replies.
pub one_more : {l m : List ℕ} (c : ℕ) → l ≡ m → l ++ (c ∷ []) ≡ m ++ (c ∷ [])
one_more c e = ap (λ (l : List ℕ). l ++ (c ∷ [])) e

pub reply_forbidden-Replied : (st : Settings) (r : Response) → Replied r (reply_forbidden st r)
unfolding reply_forbidden
reply_forbidden-Replied st r = (403, refl, refl)

-- As from any response with the same replies.
pub reply_notfound-Replied :
    (st : Settings) (r q : Response) → q.replies ≡ r.replies → Replied r (reply_notfound st q)
unfolding reply_notfound
reply_notfound-Replied st r q e = (404, one_more 404 e, refl)

pub reply_favicon-Replied : (st : Settings) (r : Response) → Replied r (reply_favicon st r)
unfolding reply_favicon
reply_favicon-Replied st r = (200, one_more 200 (zimg_headers_add-replies st.headers _), refl)

pub reply_page-Replied :
    (st : Settings) (default : Bytes) (page : Option Bytes) (r : Response)
    → Replied r (reply_page st default page r)
unfolding reply_page
reply_page-Replied st default page r = (200, refl, refl)

pub reply_error-Replied :
    {W : Type 0} (s : Server W) (n : ℕ) (r q : Response)
    → q.replies ≡ r.replies
    → Replied r (reply_error s n q)
unfolding reply_error json_return
reply_error-Replied s n r q e = (200, one_more 200 e, refl)

pub Verdict-cases : (v : Verdict) → (v ≡ ok) ⊎ (v ≡ forbidden)
Verdict-cases ok = inl refl
Verdict-cases forbidden = inr refl
