-- ===== src/Tests/Rag.antt =====
-- The text splitter and the CSV reader.
use langchain_cpp.Base.{◌≤◌, ◌≡◌, refl, List, [], ◌∷◌, All, length, arith}
use langchain_cpp.Base.Text.{Text, codes, break_on, strip_prefix}
use langchain_cpp.Base.Join.{join}
use langchain_cpp.Rag.Splitter.{Config, split_string, merge_splits}
use langchain_cpp.Rag.Splitter.Pieces.{join-split_string}
use langchain_cpp.Rag.Splitter.Bounds.{merge_splits_bound}
use langchain_cpp.Rag.Html.{html_to_text, remove_elements_entirely}
use langchain_cpp.Rag.Html.Whitespace.{Tidy, html_to_text-Tidy}
use langchain_cpp.Rag.Html.Elements.{Element, remove_elements_entirely-print}
use langchain_cpp.Rag.Csv.{parse_csv}
use langchain_cpp.Rag.Csv.RoundTrip.{print_csv, parse_csv-print_csv}

join-split_string_example :
    join (codes ", ") (split_string (codes "a, b,c") (codes ", ")) ≡ codes "a, b,c"
join-split_string_example = join-split_string (codes ", ") (codes "a, b,c")

abbrev config : Config
config = record { chunk_size = 4; chunk_overlap = 3 }

abbrev pieces : List Text
pieces = codes "abc" ∷ codes "d" ∷ codes "efg" ∷ []

merge_splits_bound_example :
    All (λ chunk. length chunk ≤ 8) (merge_splits config pieces (codes " "))
merge_splits_bound_example =
    merge_splits_bound config (codes " ") pieces (omega arith, (omega arith, (omega arith, tt)))

parse_csv-print_csv_example :
    parse_csv (print_csv b',' ((codes "a", codes "b" ∷ []) ∷ (34 ∷ [], []) ∷ [])) b','
    ≡ (codes "a" ∷ codes "b" ∷ []) ∷ ((34 ∷ []) ∷ []) ∷ []
parse_csv-print_csv_example =
    parse_csv-print_csv b',' refl refl ((codes "a", codes "b" ∷ []) ∷ (34 ∷ [], []) ∷ [])

html_to_text-Tidy_example : Tidy (html_to_text (codes "<p>a \t b</p>\n\n<br>c"))
html_to_text-Tidy_example = html_to_text-Tidy (codes "<p>a \t b</p>\n\n<br>c")

abbrev script : Element
script = record {
  before = codes "a<b>";
  opening = codes "<SCRIPT";
  inner = codes " src=x>y<";
  closing = codes "</Script";
  tail = codes " ";
}

remove_elements_entirely-print_example :
    remove_elements_entirely (codes "a<b><SCRIPT src=x>y<</Script >c") (codes "script")
    ≡ codes "a<b>c"
unfolding break_on strip_prefix
remove_elements_entirely-print_example =
    remove_elements_entirely-print (codes "script") (script ∷ []) (codes "c")
      (refl, (refl, (refl, (refl, (refl, (refl, tt)))))) ((refl, refl, refl, refl, (refl, tt)), tt)
      refl
