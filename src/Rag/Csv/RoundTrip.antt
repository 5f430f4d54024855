-- ===== src/Rag/Csv/RoundTrip.antt =====
-- A table that is printed is read back.
use langchain_cpp.Base.{
  ℕ, ◌≡◌, refl, sym, ap, ◌∙◌, true, false, List, [], ◌∷◌, ◌++◌, arith, ◌==◌, if◌then◌else◌,
  append_assoc, append-nil, ==_iff, Bool-cases, inl, inr,
}
use langchain_cpp.Base.Text.{Text}
use langchain_cpp.Rag.Csv.{Csv, plain_byte, quoted_byte, step, read, close, parse_csv}

-- Each quote is doubled.
abbrev pub escape : Text → Text
escape [] = []
escape (c ∷ s) = if c == 34 then 34 ∷ 34 ∷ escape s else c ∷ escape s

abbrev pub print_field : Text → Text
print_field f = 34 ∷ (escape f ++ 34 ∷ [])

-- A row, its first field and those behind it.
abbrev pub Row : Type 0
Row = Text × List Text

abbrev pub print_row : ℕ → Text → List Text → Text
print_row d f [] = print_field f ++ 10 ∷ []
print_row d f (g ∷ fs) = print_field f ++ d ∷ print_row d g fs

abbrev pub print_csv : ℕ → List Row → Text
print_csv d [] = []
print_csv d ((f, fs) ∷ rows) = print_row d f fs ++ print_csv d rows

abbrev pub fields : List Row → List (List Text)
fields [] = []
fields ((f, fs) ∷ rows) = (f ∷ fs) ∷ fields rows

module _ (d : ℕ) (rows : List (List Text)) (row : List Text) where
  -- The state inside a quoted field, behind it, and before one.
  abbrev inside : Text → Csv
  inside f = record { rows = rows; row = row; field = f; in_quotes = true; quoted = true }

  abbrev behind : Text → Csv
  behind f = record { rows = rows; row = row; field = f; in_quotes = false; quoted = true }

  read_byte :
      (c : ℕ) (t f : Text)
      → (c == 34) ≡ false
      → read d (c ∷ t) (inside f) ≡ read d t (inside (f ++ c ∷ []))
  unfolding read step quoted_byte
  read_byte c [] f h = ground (arith, h)
  read_byte c (e ∷ t) f h = ground (arith, h)

  read_end :
      (x : ℕ) (t f : Text)
      → (x == 34) ≡ false
      → read d (34 ∷ x ∷ t) (inside f) ≡ read d (x ∷ t) (behind f)
  unfolding read step quoted_byte
  read_end x t f h = ground (arith, h)

  read_pair : (t f : Text) → read d (34 ∷ 34 ∷ t) (inside f) ≡ read d t (inside (f ++ 34 ∷ []))
  unfolding read
  read_pair t f = refl

  read-escape :
      (g : Text) (x : ℕ) (t f : Text)
      → (x == 34) ≡ false
      → read d (escape g ++ 34 ∷ x ∷ t) (inside f) ≡ read d (x ∷ t) (behind (f ++ g))
  read-escape [] x t f h =
      read_end x t f h ∙ ap (λ k. read d (x ∷ t) (behind k)) (sym (append-nil f))
  read-escape (c ∷ g) x t f h =
      let back = λ (c' : ℕ). ap (λ k. read d (x ∷ t) (behind k)) (append_assoc f (c' ∷ []) g) in
      elim (Bool-cases (c == 34)) [
        | inl e ↦
            rw ((==_iff c 34).0 e) (
              read_pair (escape g ++ 34 ∷ x ∷ t) f ∙ (read-escape g x t (f ++ 34 ∷ []) h ∙ back 34))
        | inr e ↦ rw e (
            read_byte c (escape g ++ 34 ∷ x ∷ t) f e ∙ (read-escape g x t (f ++ c ∷ []) h ∙ back c))
      ]

  abbrev before : Csv
  before = record { rows = rows; row = row; field = []; in_quotes = false; quoted = false }

  read_open : (t : Text) → read d (34 ∷ t) before ≡ read d t (inside [])
  unfolding read step plain_byte
  read_open [] = refl
  read_open (c ∷ t) = refl

  -- A printed field, with the byte behind it.
  read_field :
      (f : Text) (x : ℕ) (t : Text)
      → (x == 34) ≡ false
      → read d (print_field f ++ x ∷ t) before ≡ read d (x ∷ t) (behind f)
  read_field f x t h =
      read_open ((escape f ++ 34 ∷ []) ++ x ∷ t)
      ∙ (ap (λ s. read d s (inside [])) (append_assoc (escape f) (34 ∷ []) (x ∷ t))
          ∙ read-escape f x t [] h)

  read_newline :
      (f t : Text)
      → (d == 10) ≡ false
      → read d (10 ∷ t) (behind f)
        ≡ read d t (record {
          rows = rows ++ (row ++ f ∷ []) ∷ [];
          row = [];
          field = [];
          in_quotes = false;
          quoted = false;
        })
  unfolding read step plain_byte
  read_newline f [] h = ground (arith, h)
  read_newline f (c ∷ t) h = ground (arith, h)

  read_delimiter :
      (f t : Text)
      → (d == 34) ≡ false
      → read d (d ∷ t) (behind f)
        ≡ read d t (record {
          rows = rows;
          row = row ++ f ∷ [];
          field = [];
          in_quotes = false;
          quoted = false;
        })
  unfolding read step plain_byte
  read_delimiter f [] h = ground (arith, h)
  read_delimiter f (c ∷ t) h = ground (arith, h)

module _ (d : ℕ) (hq : (d == 34) ≡ false) (hn : (d == 10) ≡ false) where
  read_row :
      (f : Text) (fs : List Text) (t : Text) (rows : List (List Text)) (row : List Text)
      → read d (print_row d f fs ++ t) (before d rows row)
        ≡ read d t (before d (rows ++ (row ++ f ∷ fs) ∷ []) [])
  read_row f [] t rows row =
      ap (λ s. read d s (before d rows row)) (append_assoc (print_field f) (10 ∷ []) t)
      ∙ (read_field d rows row f 10 t refl ∙ read_newline d rows row f t hn)
  read_row f (g ∷ fs) t rows row =
      ap (λ s. read d s (before d rows row)) (append_assoc (print_field f) (d ∷ print_row d g fs) t)
      ∙ (read_field d rows row f d (print_row d g fs ++ t) hq
          ∙ (read_delimiter d rows row f (print_row d g fs ++ t) hq
              ∙ (read_row g fs t rows (row ++ f ∷ [])
                  ∙ ap (λ r. read d t (before d (rows ++ r ∷ []) []))
                      (append_assoc row (f ∷ []) (g ∷ fs)))))

  read_rows :
      (table : List Row) (rows : List (List Text))
      → read d (print_csv d table) (before d rows []) ≡ before d (rows ++ fields table) []
  unfolding read
  read_rows [] rows = ap (λ r. before d r []) (sym (append-nil rows))
  read_rows ((f, fs) ∷ table) rows =
      read_row f fs (print_csv d table) rows []
      ∙ (read_rows table (rows ++ (f ∷ fs) ∷ [])
          ∙ ap (λ r. before d r []) (append_assoc rows ((f ∷ fs) ∷ []) (fields table)))

  -- A table whose fields are printed in quotes, each quote doubled, with the delimiter between them
  -- and a newline behind each row, is read back, whatever bytes the fields hold; the delimiter is
  -- neither a quote nor a newline.
  pub parse_csv-print_csv : (table : List Row) → parse_csv (print_csv d table) d ≡ fields table
  unfolding parse_csv close
  parse_csv-print_csv table = rw (read_rows table [])
