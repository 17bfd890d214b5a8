-- ===== src/PageSet.antt =====
-- src/base/SimpleFlashFsPageSet.h: a set of page numbers in a vector. An erased entry stays behind
-- as NO_DATA until the next sort. Each method returns the new set, with its result if it has one.
pub mod Order
pub mod Members
pub mod Erase
pub mod Reads
pub mod Tests
use simpleflashfs.Prelude.{
  ℕ, zero, suc, ◌+◌, ◌-◌, ◌^◌, Bool, true, false, not, ◌&&◌, ◌||◌, Option, none, some, List, [],
  ◌∷◌, ◌++◌, ltb, leb, ◌==◌, if◌then◌else◌, set, length,
}

abbrev pub no_data : ℕ
no_data = 2 ^ 32 - 1

pub record PageSet : Type 0 where
  pub entries : List ℕ
  pub unsorted : Bool
  pub unshrinked : Bool

abbrev pub empty_set : PageSet
empty_set = record { entries = []; unsorted = false; unshrinked = false }

-- `std::sort` on the values.
unfoldable pub place : ℕ → List ℕ → List ℕ
place v [] = v ∷ []
place v (x ∷ xs) = if leb v x then v ∷ x ∷ xs else x ∷ place v xs

unfoldable pub sort_values : List ℕ → List ℕ
unfolding place
sort_values [] = []
sort_values (x ∷ xs) = place x (sort_values xs)

-- Removes the NO_DATA values from the end.
keep_unless_last : ℕ → List ℕ → List ℕ
keep_unless_last x [] = if x == no_data then [] else x ∷ []
keep_unless_last x (y ∷ ys) = x ∷ y ∷ ys

unfoldable pub strip : List ℕ → List ℕ
unfolding keep_unless_last
strip [] = []
strip (x ∷ xs) = keep_unless_last x (strip xs)

unfoldable pub sort : PageSet → PageSet
unfolding sort_values strip
sort s = record { entries = strip (sort_values s.entries); unsorted = false; unshrinked = false }

pub unordered_insert_range : List ℕ → PageSet → PageSet
unordered_insert_range values s = record {
  entries = s.entries ++ values;
  unsorted = true;
  unshrinked = true;
}

unfoldable pub unordered_insert : ℕ → PageSet → PageSet
unordered_insert value s = record s { entries = s.entries ++ value ∷ []; unsorted = true }

unfoldable pub sorted_first : PageSet → PageSet
unfolding sort
sorted_first s = if s.unsorted then sort s else s

-- The element before the iterator, put back; `none` stands for `data.end()`.
abbrev pub put_back : Option ℕ → List ℕ → List ℕ
put_back none xs = xs
put_back (some p) xs = p ∷ xs

abbrev pub fill_hole : ℕ → Option ℕ → List ℕ → List ℕ
fill_hole value none xs = value ∷ xs
fill_hole value (some p) xs = if p == no_data then value ∷ xs else p ∷ value ∷ xs

-- The loop of `insert` from the iterator on, with `prev` the element before it.
unfoldable pub insert_from : ℕ → Option ℕ → List ℕ → List ℕ
insert_from value prev [] = put_back prev (value ∷ [])
insert_from value prev (x ∷ xs) =
    let rest = put_back prev (insert_from value (some x) xs) in
    if x == value
    then put_back prev (x ∷ xs)
    else (if x == no_data
        then rest
        else (if ltb value x then fill_hole value prev (x ∷ xs) else rest))

unfoldable pub insert : ℕ → PageSet → PageSet
unfolding sorted_first insert_from
insert value s =
    let s' = sorted_first s in record s' { entries = insert_from value none s'.entries }

pub record Erased : Type 0 where
  pub entries : List ℕ
  pub saw_hole : Bool
  pub erased : ℕ

-- The loop of `erase`; `saw_hole` tells that it set `unshrinked`.
unfoldable pub erase_from : ℕ → List ℕ → Erased
erase_from value [] = record { entries = []; saw_hole = false; erased = 0 }
erase_from value (x ∷ xs) =
    let rest = erase_from value xs in
    if x == value
    then record { entries = no_data ∷ xs; saw_hole = true; erased = 1 }
    else (if x == no_data
        then record rest { entries = x ∷ rest.entries; saw_hole = true }
        else (if ltb value x
            then record { entries = x ∷ xs; saw_hole = false; erased = 0 }
            else record rest { entries = x ∷ rest.entries }))

unfoldable pub erase : ℕ → PageSet → PageSet × ℕ
unfolding sorted_first erase_from
erase value s =
    let s' = sorted_first s in
    let r = erase_from value s'.entries in
    (record s' { entries = r.entries; unshrinked = s'.unshrinked || r.saw_hole }, r.erased)

-- `erase` of an iterator, by its index.
unfoldable pub erase_at : ℕ → PageSet → PageSet
erase_at i s = record s { entries = set s.entries i no_data; unshrinked = true }

unfoldable pub count_from : ℕ → List ℕ → ℕ
count_from member [] = 0
count_from member (x ∷ xs) =
    let rest = count_from member xs in
    if x == member then 1 else (if not (x == no_data) && ltb member x then 0 else rest)

unfoldable pub count : ℕ → PageSet → PageSet × ℕ
unfolding sorted_first count_from
count member s = let s' = sorted_first s in (s', count_from member s'.entries)

-- The overload of `get_data` for a set that may change.
unfoldable pub get_data : PageSet → PageSet × List ℕ
unfolding sort
get_data s = let s' = (if s.unsorted || s.unshrinked then sort s else s) in (s', s'.entries)

cut_at_hole : List ℕ → List ℕ
cut_at_hole [] = []
cut_at_hole (x ∷ xs) = if x == no_data then [] else x ∷ cut_at_hole xs

pub get_sorted_data : PageSet → List ℕ
unfolding cut_at_hole sort_values
get_sorted_data s = cut_at_hole (sort_values s.entries)

unfoldable pub clear : PageSet → PageSet
clear s = record { entries = []; unsorted = false; unshrinked = false }

unfoldable pub size_mut : PageSet → PageSet × ℕ
unfolding sorted_first
size_mut s = let s' = sorted_first s in (s', length s'.entries)

count_valid : List ℕ → ℕ
count_valid [] = 0
count_valid (x ∷ xs) = if x == no_data then count_valid xs else suc (count_valid xs)

-- The const overload of `size`.
unfoldable pub size : PageSet → ℕ
unfolding count_valid
size s = if s.unsorted || s.unshrinked then count_valid s.entries else length s.entries

unfoldable pub is_nil : List ℕ → Bool
is_nil [] = true
is_nil (x ∷ xs) = false

unfoldable pub is_empty : PageSet → PageSet × Bool
unfolding sort is_nil
is_empty s = let s' = (if s.unsorted || s.unshrinked then sort s else s) in (s', is_nil s'.entries)
