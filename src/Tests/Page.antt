-- ===== src/Tests/Page.antt =====
-- The two kinds of callbacks on the calls for one part.
use ximg.Prelude.{ℕ, true, false, List, [], ◌∷◌, ◌++◌, Bytes, Option, some, length, codes, ◌≡◌}
use ximg.Prelude.Int.{pos}
use ximg.Upload.Page.{Page, Call, header, chunk, print_all}
use ximg.Upload.Page.Listed.{Notice, listed, paragraphs, as_upload, list_all, print_all-IsStep}

abbrev count_save : ℕ → Bytes → ℕ × Option Bytes
count_save n image = (length image, some (codes "key"))

abbrev part : Page ℕ
part = record {
  partno = 0;
  succno = 0;
  check_name = false;
  page = codes "<html>";
  mem = codes "filename=a.jpg abc" ++ (0 ∷ []);
  storage = 0;
  faulted = false;
}

abbrev part_calls : List Call
part_calls = header 0 14 ∷ chunk 15 3 ∷ []

print_all-IsStep_example :
    (notices : List Notice) × (list_all count_save
        (λ t. true)
        (pos 4869)
        part_calls
        (as_upload part [])
      ≡ as_upload (print_all count_save (λ t. true) (pos 4869) part_calls part) (listed notices []))
    × ((print_all count_save (λ t. true) (pos 4869) part_calls part).page
        ≡ codes "<html>" ++ paragraphs (pos 4869) notices)
print_all-IsStep_example = print_all-IsStep count_save (λ t. true) (pos 4869) part_calls part []
