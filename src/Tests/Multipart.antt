-- ===== src/Tests/Multipart.antt =====
-- Runs of the parts of an upload, and their theorems on concrete inputs.
use ximg.Prelude.{
  ℕ, ◌*◌, ◌/◌, ◌≤◌, ◌+◌, ◌++◌, map, leb, Bool, false, List, [], ◌∷◌, Bytes, length, All, Option,
  none, some, ◌≡◌, ◌⊎◌, true, if◌then◌else◌, refl, arith, codes,
}
use ximg.Multipart.{
  XState, s_start, s_end, Parser, Event, part_data_begin, headers_complete, part_data_end, body_end,
  header_field, header_value, chunk_data, Handler, Returned, x_multipart_parser_init,
  x_multipart_parser_execute,
}
use ximg.Multipart.Valid.{InBuffer}
use ximg.Base64.RoundTrip.{b64_encode}
use ximg.UrlDecode.RoundTrip.{url_encode}
use ximg.Upload.Form.{
  FormResult, parse_form, IsAnswered, parse_form-IsAnswered, form_type, boundary_pattern,
  boundary_pattern-form_type,
}
use ximg.Upload.Param.{decode_param, decode_param-url_encode, decode_param_total}
use ximg.Upload.{Upload, upload_callbacks}
use ximg.Upload.Tally.{IsTallied, fresh, x_multipart_parser_execute-IsTallied}
use ximg.Multipart.Total.{
  IsDone, x_multipart_parser_init-IsValid, x_multipart_parser_execute-IsDone,
}

-- Callbacks that note their calls, the last one first.
abbrev noted : Handler (List Event)
noted e d = (e ∷ d, false)

abbrev boundary : Bytes
boundary = codes "--b"

abbrev body : Bytes
body = codes "--b\r\nA: v\r\n\r\nx\r\ny\r\n--b--"

abbrev events_of : Option (Returned (List Event)) → List Event
events_of none = []
events_of (some r) = r.data_of

run_body :
    events_of (x_multipart_parser_execute noted body (x_multipart_parser_init boundary) [])
    ≡ body_end
      ∷ chunk_data 13 4
      ∷ part_data_end
      ∷ headers_complete
      ∷ header_value 8 1
      ∷ header_field 5 1
      ∷ part_data_begin
      ∷ []
unfolding x_multipart_parser_execute ximg.Multipart.parse_loop ximg.Multipart.turn
    x_multipart_parser_init ximg.Multipart.at_start_boundary ximg.Multipart.boundary_at
    ximg.Multipart.emit ximg.Multipart.at_header_field ximg.Multipart.at_header_value
    ximg.Multipart.value_end ximg.Multipart.at_part_data ximg.Multipart.at_almost_boundary
    ximg.Multipart.at_boundary ximg.Multipart.at_final_hyphen
run_body = refl

x_multipart_parser_execute-IsDone_example :
    (r : Returned (List Event)) × (x_multipart_parser_execute noted body
        (x_multipart_parser_init boundary)
        []
      ≡ some r)
    × IsDone (All (InBuffer (length body))) (length body) r
x_multipart_parser_execute-IsDone_example =
    x_multipart_parser_execute-IsDone noted (All (InBuffer (length body))) body s_start
      (x_multipart_parser_init boundary) [] (omega arith) (λ e d place h. (place, h))
      (x_multipart_parser_init-IsValid boundary (omega arith)) tt

-- Keeps the number of images, and gives the image itself for its key.
abbrev stub_save : ℕ → Bytes → ℕ × Option Bytes
stub_save k img = (k + 1, some img)

abbrev is_png : Bytes → Bool
is_png t = leb 3 (length t)

abbrev form : Bytes
form =
    codes "--b\r\nA: filename=\"a.png\"\r\n\r\nxyz\r\n--b\r\nA: filename=\"b.c\"\r\n\r\nw\r\n--b--"

abbrev counts_of : Option (Returned (Upload ℕ)) → List ℕ
counts_of none = []
counts_of (some r) =
    r.data_of.partno
    ∷ r.data_of.succno
    ∷ r.data_of.storage
    ∷ (if r.data_of.faulted then 1 else 0)
    ∷ map (λ info. info.code) r.data_of.infos

-- One image saved, and behind it one part of a type that is refused.
run_form :
    counts_of (
      x_multipart_parser_execute
        (upload_callbacks stub_save is_png)
        form
        (x_multipart_parser_init boundary)
        (fresh (form ++ (0 ∷ [])) 0))
    ≡ 2 ∷ 1 ∷ 1 ∷ 0 ∷ 201 ∷ 200 ∷ []
unfolding x_multipart_parser_execute x_multipart_parser_init upload_callbacks
    ximg.Multipart.parse_loop ximg.Multipart.turn ximg.Multipart.at_start_boundary
    ximg.Multipart.boundary_at ximg.Multipart.emit ximg.Multipart.at_header_field
    ximg.Multipart.at_header_value ximg.Multipart.value_end ximg.Multipart.at_part_data
    ximg.Multipart.at_almost_boundary ximg.Multipart.at_boundary ximg.Multipart.at_final_hyphen
    ximg.Multipart.at_data_end ximg.Upload.c_string ximg.Upload.check_type ximg.Upload.quoted_name
    ximg.Upload.refuse_type ximg.Upload.print_value ximg.Upload.x_on_header_value
    ximg.Upload.save_part ximg.Upload.x_on_chunk_data ximg.Text.strnstr ximg.Text.strnstr_loop
    ximg.Text.starts_with ximg.Text.strnchr ximg.Text.get_type ximg.Text.after_dot
    ximg.Text.last_type ximg.Text.str_lcpy
run_form = refl

x_multipart_parser_execute-IsTallied_example :
    (r : Returned (Upload ℕ)) × (x_multipart_parser_execute
        (upload_callbacks stub_save is_png)
        form
        (x_multipart_parser_init boundary)
        (fresh (form ++ (0 ∷ [])) 0)
      ≡ some r)
    × ((r.data_of.faulted ≡ true) ⊎ IsTallied (length form) r.data_of)
x_multipart_parser_execute-IsTallied_example =
    x_multipart_parser_execute-IsTallied stub_save is_png boundary form (0 ∷ []) 0 (omega arith)
      (omega arith)

abbrev kept_letters : ℕ → Bool
kept_letters c = leb 65 c

decode_param-url_encode_example :
    (rest : Bytes) × (decode_param 7 (url_encode kept_letters (b64_encode (codes "img")))
      ≡ some (length (codes "img"), codes "img" ++ rest))
decode_param-url_encode_example =
    decode_param-url_encode 7 kept_letters (codes "img") refl
      (omega arith, (omega arith, (omega arith, tt)))

decode_param_total_example :
    (len : ℕ) × (buff : Bytes) × (decode_param 7 (codes "aW1%3D=") ≡ some (len, buff))
    × (len ≤ length buff)
    × (len ≤ length (codes "aW1%3D=") / 4 * 3)
decode_param_total_example = decode_param_total 7 (codes "aW1%3D=")

parse_form-IsAnswered_example :
    (r : FormResult ℕ) × (parse_form stub_save is_png (form_type (codes "b")) form (0 ∷ []) 0
      ≡ some r)
    × IsAnswered (length form) r
parse_form-IsAnswered_example =
    parse_form-IsAnswered stub_save is_png (form_type (codes "b")) form (0 ∷ []) 0 29
      (unfold ximg.Access.zimg_strlchr in refl) (omega arith)

boundary_pattern-form_type_example :
    (boundary_pattern (form_type (codes "xyz" ++ (b';' ∷ [])))
      ≡ some (some (codes "--" ++ codes "xyz")))
    × (boundary_pattern (form_type (b'"' ∷ codes "xyz" ++ (b'"' ∷ [])))
        ≡ some (some (codes "--" ++ codes "xyz")))
    × (boundary_pattern (form_type (b'"' ∷ codes "xyz")) ≡ some none)
boundary_pattern-form_type_example =
    boundary_pattern-form_type (codes "xyz") [] refl (unfold ximg.Upload.Form.find_break in refl)
      (unfold ximg.Access.zimg_strlchr in refl)
