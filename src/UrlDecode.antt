-- ===== src/UrlDecode.antt =====
-- src/xutil.c: `url_decode`. A C string is the list of its bytes in front of the NUL.
pub mod Bounds
pub mod RoundTrip
use ximg.Prelude.{
  ℕ, ◌+◌, ◌-◌, ◌*◌, ◌&&◌, ◌||◌, Bool, [], ◌∷◌, Option, some, leb, ◌==◌, if◌then◌else◌, Bytes,
}
use ximg.Prelude.Memory.{◌>>=◌, store}

-- `isxdigit` of <ctype.h>
unfoldable pub isxdigit : ℕ → Bool
isxdigit c = (leb b'0' c && leb c b'9') || (leb b'a' c && leb c b'f') || (leb b'A' c && leb c b'F')

-- The digit's value, as `strtol` with base 16 reads it.
unfoldable pub xdigit_value : ℕ → ℕ
xdigit_value c =
    if leb c b'9' then c - b'0' else if leb b'a' c then c - b'a' + 10 else c - b'A' + 10

-- The loop at the rest of `str`, with `j` bytes in `dest`. The bytes behind the end read as NUL,
-- which is no digit.
unfoldable pub url_loop : Bytes → ℕ → Bytes → Option (ℕ × Bytes)
unfolding isxdigit xdigit_value
url_loop [] j dest = some (j, dest)
url_loop (c ∷ []) j dest = do dest' ← store dest j c; some (j + 1, dest')
url_loop (c ∷ h ∷ []) j dest =
    let copied = (do dest' ← store dest j c; url_loop (h ∷ []) (j + 1) dest') in
    let skipped = url_loop (h ∷ []) j dest in
    if c == b'%' then if h == 0 then copied else skipped else copied
url_loop (c ∷ h ∷ l ∷ rest) j dest =
    let copied = (do dest' ← store dest j c; url_loop (h ∷ l ∷ rest) (j + 1) dest') in
    let skipped = url_loop (h ∷ l ∷ rest) j dest in
    let unescaped = (do
      dest' ← store dest j (16 * xdigit_value h + xdigit_value l)
      url_loop rest (j + 1) dest') in
    if c == b'%'
    then if h == 0 then copied else if isxdigit h && isxdigit l then unescaped else skipped
    else copied

unfoldable pub url_decode : Bytes → Bytes → Option (ℕ × Bytes)
url_decode str dest = url_loop str 0 dest
