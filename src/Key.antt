-- ===== src/Key.antt =====
-- The image key: the text of a digest (src/zimg.c `save_img`, src/zhttpd.c `zimg_etag_set`), the
-- check of a key and the directory number (src/zutil.c `is_md5`, `str_hash`).
pub mod Digits
pub mod Gen
use ximg.Prelude.{
  ℕ, ◌+◌, ◌-◌, ◌*◌, ◌/◌, ◌%◌, ◌^◌, Bool, ◌&&◌, ◌||◌, List, [], ◌∷◌, Bytes, length, take, drop,
  get_or, leb, ◌==◌, if◌then◌else◌, bit_and,
}
use ximg.Prelude.Bits.{◌>>>◌}
use ximg.Text.{str_lcpy}
use ximg.UrlDecode.{isxdigit, xdigit_value}

-- The character for four bits.
abbrev pub nibble_char : ℕ → ℕ
nibble_char h = if leb 0x0 h && leb h 0x9 then h + 0x30 else h + 0x57

-- The loop that fills `md5sum`: two characters for each byte of the digest.
unfoldable pub md5sum : Bytes → Bytes
md5sum [] = []
md5sum (v ∷ vs) = nibble_char (bit_and v 0xf0 >>> 4) ∷ nibble_char (bit_and v 0x0f) ∷ md5sum vs

abbrev pub is_key_char : ℕ → Bool
is_key_char c =
    (leb b'0' c && leb c b'9') || ((leb b'a' c && leb c b'f') || (leb b'A' c && leb c b'F'))

-- The value of `i` behind the loop of `is_md5`.
unfoldable pub key_prefix : Bytes → ℕ
key_prefix [] = 0
key_prefix (c ∷ s) = if is_key_char c then 1 + key_prefix s else 0

-- The result 1 of `is_md5` is `true`. Behind its end a text reads as NUL.
unfoldable pub is_md5 : Bytes → Bool
unfolding key_prefix
is_md5 s = let i = key_prefix s in i == 32 && get_or s i 0 == 0

-- `strtol` with base 16 on a text with no blank, sign or `0x` in front: the keys have none.
unfoldable pub strtol16 : ℕ → Bytes → ℕ
strtol16 acc [] = acc
strtol16 acc (c ∷ s) =
    let more = strtol16 (acc * 16 + xdigit_value c) s in if isxdigit c then more else acc

unfoldable pub str_hash : Bytes → ℕ
str_hash str = strtol16 0 (str_lcpy str 4) / 4
