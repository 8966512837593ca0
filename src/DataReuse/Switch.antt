-- ===== src/DataReuse/Switch.antt =====
-- `SwitchCountMatrix` and `SwitchCountList`: how often control passes from one basic block to
-- another. `none` is a failed assertion or an access out of bounds.
pub mod Insert
use pimprof.Base.{
  ℕ, zero, suc, ◌+◌, ◌-◌, ◌%◌, Bool, List, [], ◌∷◌, ◌++◌, Option, none, some, length, get_elem?,
  get_or, set, replicate, ltb, leb, ◌==◌, if◌then◌else◌, ◌>>=◌, u64_mod,
}

-- `std::vector::resize(n, fill)` where `n` is not smaller than the size.
unfoldable pub grow {ℓ} : {A : Type ℓ} → ℕ → A → List A → List A
grow n fill xs = xs ++ replicate (n - length xs) fill

-- `_elem2idx` gives the first index of an element in `_idx2elem`: `createElem` keeps the two in step.
pub record Matrix : Type 0 where
  pub elems : List ℕ
  pub total_count : List ℕ
  pub count : List (List ℕ)

abbrev pub new_matrix : Matrix
new_matrix = record { elems = []; total_count = []; count = [] }

unfoldable pub index_from : ℕ → ℕ → List ℕ → Option ℕ
index_from i elem [] = none
index_from i elem (x ∷ xs) = if x == elem then some i else index_from (suc i) elem xs

-- `getIdx`
unfoldable pub get_idx : ℕ → Matrix → Option ℕ
unfolding index_from
get_idx elem m = index_from 0 elem m.elems

-- `getElem`
unfoldable pub get_elem : ℕ → Matrix → Option ℕ
get_elem idx m = get_elem? m.elems idx

unfoldable pub create_elem : ℕ → Matrix → Matrix
unfolding get_idx
create_elem elem m = elim (get_idx elem m) [
  | none ↦ record m { elems = m.elems ++ (elem ∷ []) }
  | some i ↦ m
]

-- `_count[fromidx][toidx] += count`, with both vectors grown to hold the cell.
unfoldable pub bump : ℕ → ℕ → ℕ → Matrix → Matrix
unfolding grow
bump fromidx toidx n m =
    let counts = if leb (length m.count) fromidx then grow (fromidx + 1) [] m.count else m.count in
    let totals =
      if leb (length m.count) fromidx then grow (fromidx + 1) 0 m.total_count else m.total_count in
    let row = get_or counts fromidx [] in
    let row' = if leb (length row) toidx then grow (toidx + 1) 0 row else row in
    record m {
      count = set counts fromidx (set row' toidx ((get_or row' toidx 0 + n) % u64_mod));
      total_count = set totals fromidx ((get_or totals fromidx 0 + n) % u64_mod);
    }

-- `insert(from, to, count)`
unfoldable pub insert : ℕ → ℕ → ℕ → Matrix → Option Matrix
unfolding create_elem get_idx bump
insert from to n m = do
  let m' = create_elem to (create_elem from m)
  fromidx ← get_idx from m'
  toidx ← get_idx to m'
  some (bump fromidx toidx n m')

-- `SwitchCountRow`
pub record Row : Type 0 where
  pub fromidx : ℕ
  pub toidxvec : List (ℕ × ℕ)

-- `SwitchCountList` is the vector of its rows.
abbrev pub Rows : Type 0
Rows = List Row

-- `getRow`
unfoldable pub get_row : ℕ → Rows → Option Row
get_row fromidx rows = get_elem? rows fromidx

-- The `while` loop of `RowInsert`: empty rows up to the index, each with its own index.
unfoldable pub empty_rows : ℕ → ℕ → Rows
empty_rows zero i = []
empty_rows (suc n) i = record { fromidx = i; toidxvec = [] } ∷ empty_rows n (suc i)

unfoldable pub row_insert : ℕ → List (ℕ × ℕ) → Rows → Rows
unfolding empty_rows
row_insert fromidx toidxvec rows =
    set (rows ++ empty_rows (suc fromidx - length rows) (length rows)) fromidx
      (record { fromidx = fromidx; toidxvec = toidxvec })

-- `bbCountFunc`: the entries of a row, added to the counters of their targets.
unfoldable pub bb_count_row : List (ℕ × ℕ) → List ℕ → List ℕ
bb_count_row [] counts = counts
bb_count_row ((toidx, n) ∷ rest) counts =
    bb_count_row rest (set counts toidx ((get_or counts toidx 0 + n) % u64_mod))

unfoldable pub bb_count_func : Row → List ℕ → List ℕ
unfolding bb_count_row
bb_count_func row counts = bb_count_row row.toidxvec counts

-- `std::sort` by a strict order, largest first: a stable sort, since the order of equal entries is
-- not specified.
module _ {ℓ} {A : Type ℓ} (key : A → ℕ) where
  unfoldable pub insert_desc : A → List A → List A
  insert_desc a [] = a ∷ []
  insert_desc a (x ∷ xs) = if leb (key x) (key a) then a ∷ x ∷ xs else x ∷ insert_desc a xs

  unfoldable pub sort_desc : List A → List A
  unfolding insert_desc
  sort_desc [] = []
  sort_desc (x ∷ xs) = insert_desc x (sort_desc xs)

-- `SwitchCountRow::Sort` and `SwitchCountList::Sort`
unfoldable pub sort_row : Row → Row
unfolding sort_desc
sort_row row = record row { toidxvec = sort_desc (λ e. e.1) row.toidxvec }

unfoldable pub sort_rows : Rows → Rows
unfolding sort_row
sort_rows [] = []
sort_rows (row ∷ rows) = sort_row row ∷ sort_rows rows
