-- ===== src/Execution/Results/Bounds.antt =====
-- How many rows a page can hold.
use lobstr_mcp.Prelude.{
  ℕ, zero, suc, String, ◌≤◌, Bool, true, false, List, [], ◌∷◌, Option, none, some, ◌≡◌, refl, arith,
  leb, length, Bool-cases, inl, inr,
}
use lobstr_mcp.Prelude.Dict.{Dict}
use lobstr_mcp.Prelude.Int.{ℤ, pos, negsuc}
use lobstr_mcp.Json.{Json}
use lobstr_mcp.Accounts.{first_list}
use lobstr_mcp.Execution.Results.{
  clamp, default_size, effective_page_size, row_limit, take, slice, strip_records, capped, selected,
  get_results,
}

clamp-within : (z : ℤ) → (1 ≤ clamp z) × (clamp z ≤ 100)
unfolding clamp
clamp-within (negsuc n) = (omega arith, omega arith)
clamp-within (pos zero) = (omega arith, omega arith)
clamp-within (pos (suc n)) = (ground arith, ground arith)

effective_page_size-within :
    (page_size : Option ℤ) (full : Bool)
    → (1 ≤ effective_page_size page_size full) × (effective_page_size page_size full ≤ 100)
unfolding effective_page_size
effective_page_size-within none full = clamp-within (pos (default_size full))
effective_page_size-within (some (pos zero)) full = clamp-within (pos (default_size full))
effective_page_size-within (some (pos (suc n))) full = clamp-within (pos (suc n))
effective_page_size-within (some (negsuc n)) full = clamp-within (negsuc n)

pub length-take {ℓ} : {A : Type ℓ} (n : ℕ) (xs : List A) → length (take n xs) ≤ n
unfolding take
length-take zero xs = omega arith
length-take (suc n) [] = omega arith
length-take (suc n) (x ∷ xs) = omega (arith, length-take n xs)

length-strip_records : (records : List Json) → length (strip_records records) ≡ length records
unfolding strip_records
length-strip_records [] = refl
length-strip_records (v ∷ records) = omega (arith, length-strip_records records)

length-capped : (full : Bool) (records : List Json) → length (capped full records) ≡ length records
unfolding capped
length-capped true records = refl
length-capped false records = length-strip_records records

-- `max_rows` where it is not negative.
abbrev pub of_count : Option ℕ → Option ℤ
of_count none = none
of_count (some n) = some (pos n)

length-slice :
    (max_rows : Option ℕ) (size : ℕ) (records : List Json)
    → length (slice (row_limit (of_count max_rows) size) records) ≤ size
unfolding slice row_limit
length-slice none size records = length-take size records
length-slice (some n) size records = elim (Bool-cases (leb n size)) [
  | inl fits ↦ rw (fits, slice) (let h = length-take n records in ground arith)
  | inr over ↦ rw (over, slice) (length-take size records)
]

length-slice_max :
    (n size : ℕ) (records : List Json) → length (slice (row_limit (some (pos n)) size) records) ≤ n
unfolding slice row_limit
length-slice_max n size records = elim (Bool-cases (leb n size)) [
  | inl fits ↦ rw (fits, slice) (length-take n records)
  | inr over ↦ rw (over, slice) (let h = length-take size records in ground arith)
]

-- No more rows than are asked for.
abbrev pub AtMost : Option ℕ → List Json → Type 0
AtMost none rows = Unit
AtMost (some n) rows = length rows ≤ n

capped-AtMost :
    (max_rows : Option ℕ) (size : ℕ) (full : Bool) (records : List Json)
    → AtMost max_rows (capped full (slice (row_limit (of_count max_rows) size) records))
capped-AtMost none size full records = tt
capped-AtMost (some n) size full records = omega (
  arith,
  length-capped full (slice (row_limit (some (pos n)) size) records),
  length-slice_max n size records,
)

-- Whatever page size and fields are asked for and whatever the API answers, a page is of 1 to 100
-- rows, its list of rows is no longer than the page and than `max_rows`, and the count it gives is
-- that of the list, unless `max_rows` is negative.
pub get_results-within :
    (page : ℤ) (page_size : Option ℤ) (max_rows : Option ℕ) (fields : List String) (full : Bool)
    (payload : Dict Json)
    → let answered = get_results page page_size (of_count max_rows) fields full payload in
      (1 ≤ answered.page_size)
      × (answered.page_size ≤ 100)
      × (length answered.results ≤ answered.page_size)
      × AtMost max_rows answered.results
      × (answered.returned ≡ length answered.results)
unfolding get_results
get_results-within page page_size max_rows fields full payload =
    let size = effective_page_size page_size full in
    let records = selected fields (first_list ("data" ∷ "results" ∷ "records" ∷ []) payload) in
    let (low, high) = effective_page_size-within page_size full in
    let rows = slice (row_limit (of_count max_rows) size) records in
    (
      low,
      high,
      omega (arith, length-capped full rows, length-slice max_rows size records),
      capped-AtMost max_rows size full records,
      refl,
    )
