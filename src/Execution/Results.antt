-- ===== src/Execution/Results.antt =====
-- execution.py: the page of rows that `get_results_impl` makes of what the API answers.
pub mod Bounds
pub mod Index
pub mod Unfailing
use lobstr_mcp.Prelude.{
  ℕ, zero, suc, ◌+◌, ◌-◌, String, Bool, true, false, not, ◌||◌, ◌&&◌, List, [], ◌∷◌, Option, none,
  some, if◌then◌else◌, leb, length, ◌==◌, or_else, text_leb,
}
use lobstr_mcp.Prelude.Dict.{Dict, lookup, insert, keys}
use lobstr_mcp.Prelude.Int.{ℤ, pos, negsuc}
use lobstr_mcp.Json.{
  Json, null, bool, int, float, str, arr, obj, nil, cons, end, member, dict, as_dict, get,
}
use lobstr_mcp.Accounts.{first_list}

abbrev pub default_page_size : ℕ
default_page_size = 10

abbrev pub full_default_page_size : ℕ
full_default_page_size = 25

abbrev pub max_page_size : ℕ
max_page_size = 100

-- `_strip_empty`: null, an empty text, list or dict goes; 0 and False stay.
unfoldable pub is_blank : Json → Bool
is_blank null = true
is_blank (str s) = s == ""
is_blank (arr nil) = true
is_blank (obj end) = true
is_blank _ = false

unfoldable pub strip_empty : Dict Json → Dict Json
unfolding is_blank
strip_empty [] = []
strip_empty ((k, v) ∷ row) =
    let rest = strip_empty row in if is_blank v then rest else (k, v) ∷ rest

unfoldable pub clamp : ℤ → ℕ
clamp (negsuc n) = 1
clamp (pos zero) = 1
clamp (pos (suc n)) = if leb (suc n) max_page_size then suc n else max_page_size

unfoldable pub default_size : Bool → ℕ
default_size full = if full then full_default_page_size else default_page_size

-- A page size of 0 counts as none.
unfoldable pub effective_page_size : Option ℤ → Bool → ℕ
unfolding clamp default_size
effective_page_size none full = clamp (pos (default_size full))
effective_page_size (some (pos zero)) full = clamp (pos (default_size full))
effective_page_size (some (pos (suc n))) full = clamp (pos (suc n))
effective_page_size (some (negsuc n)) full = clamp (negsuc n)

unfoldable pub row_limit : Option ℤ → ℕ → ℤ
row_limit none size = pos size
row_limit (some (pos n)) size = if leb n size then pos n else pos size
row_limit (some (negsuc n)) size = negsuc n

unfoldable pub take {ℓ} : {A : Type ℓ} → ℕ → List A → List A
take zero xs = []
take (suc n) [] = []
take (suc n) (x ∷ xs) = x ∷ take n xs

-- `records[:n]`; a negative n leaves that many rows off at the end.
unfoldable pub slice {ℓ} : {A : Type ℓ} → ℤ → List A → List A
unfolding take
slice (pos n) records = take n records
slice (negsuc n) records = take (length records - suc n) records

strip_record : Json → Json
strip_record v = elim (as_dict v) [ none ↦ v | some row ↦ dict (strip_empty row) ]

strip_records : List Json → List Json
strip_records [] = []
strip_records (v ∷ records) = strip_record v ∷ strip_records records

unfoldable pub capped : Bool → List Json → List Json
unfolding strip_records strip_record strip_empty
capped full records = if full then records else strip_records records

-- `sorted` of the columns of the rows, each once.
unfoldable pub place_sorted : String → List String → List String
place_sorted k [] = k ∷ []
place_sorted k (j ∷ ks) =
    let rest = place_sorted k ks in
    if k == j then j ∷ ks else if text_leb k j then k ∷ j ∷ ks else j ∷ rest

unfoldable pub place_all : List String → List String → List String
unfolding place_sorted
place_all [] ks = ks
place_all (k ∷ more) ks = place_sorted k (place_all more ks)

unfoldable pub columns_of : Option (Dict Json) → List String
columns_of none = []
columns_of (some row) = keys row

unfoldable pub available_fields : List Json → List String
unfolding place_all columns_of
available_fields [] = []
available_fields (v ∷ records) = place_all (columns_of (as_dict v)) (available_fields records)

-- `{k: r.get(k) for k in fields}`, of the records that are dicts.
unfoldable pub pick_fields : List String → Dict Json → Dict Json → Dict Json
pick_fields [] row picked = picked
pick_fields (k ∷ fields) row picked = pick_fields fields row (insert k (get k row) picked)

unfoldable pub pick_record : List String → Option (Dict Json) → List Json → List Json
unfolding pick_fields
pick_record fields none rest = rest
pick_record fields (some row) rest = dict (pick_fields fields row []) ∷ rest

unfoldable pub pick_records : List String → List Json → List Json
unfolding pick_record
pick_records fields [] = []
pick_records fields (v ∷ records) = pick_record fields (as_dict v) (pick_records fields records)

unfoldable pub selected : List String → List Json → List Json
unfolding pick_records
selected [] records = records
selected (k ∷ fields) records = pick_records (k ∷ fields) records

pub record Page : Type 0 where
  pub total_results : Json
  pub page : Json
  pub page_size : ℕ
  pub total_pages : Json
  pub returned : ℕ
  pub available : List String
  pub next : Json
  pub results : List Json

-- The page for what the API answered; no `fields` is an empty list.
unfoldable pub get_results : ℤ → Option ℤ → Option ℤ → List String → Bool → Dict Json → Page
unfolding effective_page_size row_limit slice capped first_list selected available_fields
get_results page page_size max_rows fields full payload =
    let size = effective_page_size page_size full in
    let records = first_list ("data" ∷ "results" ∷ "records" ∷ []) payload in
    let rows = capped full (slice (row_limit max_rows size) (selected fields records)) in
    record {
      total_results = get "total_results" payload;
      page = or_else (lookup "page" payload) (int page);
      page_size = size;
      total_pages = get "total_pages" payload;
      returned = length rows;
      available = available_fields records;
      next = get "next" payload;
      results = rows;
    }
