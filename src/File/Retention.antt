-- ===== src/File/Retention.antt =====
-- RetentionCleaner.cpp: which of the files beside a log file are deleted. The file system is a
-- parameter: the entries of the directory, the regular expression as a test of a name, and whether
-- the removal of a file succeeds. A pointer to an element of the vector of files is its position.
pub mod Shrinking
pub mod Sums
pub mod Settled
pub mod Loop
pub mod Limits
pub mod Cleaned
use logme.Prelude.{
  ℕ, zero, suc, ◌+◌, ◌-◌, ◌*◌, Bool, true, false, not, ◌&&◌, ◌||◌, ◌==◌, ltb, leb, if◌then◌else◌,
  Option, none, some, List, [], ◌∷◌, ◌++◌, map, length, get_or, set, is_empty, add64, sub64,
}
use logme.Text.Replace.{same_text}

pub record FileInfo : Type 0 where
  pub path_name : List ℕ
  pub last_write : ℕ  -- in nanoseconds
  pub size : ℕ
  pub deleted : Bool

-- What `directory_iterator` gives; the time and the size are `none` on an error.
pub record DirectoryEntry : Type 0 where
  pub name : List ℕ
  pub is_regular_file : Bool
  pub write_time : Option ℕ
  pub file_size : Option ℕ

abbrev pub size_or_zero : Option ℕ → ℕ
size_or_zero none = 0
size_or_zero (some n) = n

abbrev pub with_time : DirectoryEntry → Option ℕ → List FileInfo
with_time e none = []
with_time e (some t) =
    record { path_name = e.name; last_write = t; size = size_or_zero e.file_size; deleted = false }
    ∷ []

-- The entries of the directory; there are none where its name is empty or it does not exist.
unfoldable pub find_matching_files : (List ℕ → Bool) → List DirectoryEntry → List FileInfo
find_matching_files pattern [] = []
find_matching_files pattern (e ∷ es) =
    (if not e.is_regular_file || not (pattern e.name) then [] else with_time e e.write_time)
    ++ find_matching_files pattern es

-- `operator<` of two texts.
abbrev pub less_text : List ℕ → List ℕ → Bool
less_text s [] = false
less_text [] (y ∷ ys) = true
less_text (x ∷ xs) (y ∷ ys) = ltb x y || (x == y && less_text xs ys)

abbrev pub is_newer : FileInfo → FileInfo → Bool
is_newer a b =
    if not (a.last_write == b.last_write)
    then ltb b.last_write a.last_write
    else less_text a.path_name b.path_name

abbrev pub is_older : FileInfo → FileInfo → Bool
is_older a b =
    if not (a.last_write == b.last_write)
    then ltb a.last_write b.last_write
    else less_text a.path_name b.path_name

-- `std::sort`; two files of a directory differ in their names, so that the order is total.
module _ {A : Type 0} (less : A → A → Bool) where
  unfoldable pub insert : A → List A → List A
  insert x [] = x ∷ []
  insert x (y ∷ ys) = if less y x then y ∷ insert x ys else x ∷ y ∷ ys

  unfoldable pub sort : List A → List A
  unfolding insert
  sort [] = []
  sort (x ∷ xs) = insert x (sort xs)

unfoldable pub sort_newest_first : List FileInfo → List FileInfo
unfolding sort
sort_newest_first = sort is_newer

abbrev pub no_file : FileInfo
no_file = record { path_name = []; last_write = 0; size = 0; deleted = true }

abbrev pub file_at : List FileInfo → ℕ → FileInfo
file_at files i = get_or files i no_file

unfoldable pub count_existing : List FileInfo → ℕ
count_existing [] = 0
count_existing (f ∷ fs) = (if f.deleted then 0 else 1) + count_existing fs

-- The loop adds onto `total`.
unfoldable pub add_sizes : ℕ → List FileInfo → ℕ
add_sizes total [] = total
add_sizes total (f ∷ fs) = add_sizes (if f.deleted then total else add64 total f.size) fs

unfoldable pub calculate_total_size : List FileInfo → ℕ
unfolding add_sizes
calculate_total_size = add_sizes 0

unfoldable pub existing : List FileInfo → List ℕ
existing [] = []
existing (f ∷ fs) = (if f.deleted then [] else 0 ∷ []) ++ map suc (existing fs)

unfoldable pub get_oldest_existing_files : List FileInfo → List ℕ
unfolding sort existing
get_oldest_existing_files files =
    sort (λ i j. is_older (file_at files i) (file_at files j)) (existing files)

module _ (can_remove : List ℕ → Bool) (keep : List ℕ) where
  -- The result, and the file after.
  unfoldable pub delete_file : FileInfo → Bool × FileInfo
  delete_file f =
      if f.deleted
      then (true, f)
      else if same_text f.path_name keep
      then (false, f)
      else if can_remove f.path_name
      then (true, record f { deleted = true })
      else (false, f)

  unfoldable pub max_files_loop :
      (limit : ℕ) → List ℕ → (remaining : ℕ) → List FileInfo → List FileInfo
  unfolding delete_file
  max_files_loop limit [] remaining files = files
  max_files_loop limit (i ∷ is) remaining files =
      let (done, f) = delete_file (file_at files i) in
      let rest =
        max_files_loop limit is (if done then sub64 remaining 1 else remaining) (set files i f) in
      if leb remaining limit then files else rest

  unfoldable pub apply_max_files : (limit : ℕ) → List FileInfo → List FileInfo
  unfolding max_files_loop count_existing get_oldest_existing_files
  apply_max_files limit files =
      if limit == 0
      then files
      else if leb (count_existing files) limit
      then files
      else max_files_loop limit (get_oldest_existing_files files) (count_existing files) files

  -- A millisecond has a million nanoseconds; a time in the future is no age at all. In the source the
  -- comparison is one of nanoseconds in 64 bits with a sign, which a limit above about 9.2 * 10 ^ 12
  -- milliseconds overflows; there is no overflow here.
  abbrev pub aged : (max_age_ms now : ℕ) → FileInfo → FileInfo
  aged max_age_ms now f =
      if f.deleted
      then f
      else if same_text f.path_name keep
      then f
      else if leb (now - f.last_write) (max_age_ms * 1_000_000)
      then f
      else (delete_file f).1

  unfoldable pub apply_max_age : (max_age_ms now : ℕ) → List FileInfo → List FileInfo
  unfolding delete_file
  apply_max_age max_age_ms now files =
      if max_age_ms == 0 then files else map (aged max_age_ms now) files

  unfoldable pub total_size_loop :
      (limit : ℕ) → List ℕ → (total : ℕ) → List FileInfo → List FileInfo
  unfolding delete_file
  total_size_loop limit [] total files = files
  total_size_loop limit (i ∷ is) total files =
      let size = (file_at files i).size in
      let (done, f) = delete_file (file_at files i) in
      let total' = if done then (if ltb total size then 0 else total - size) else total in
      let rest = total_size_loop limit is total' (set files i f) in
      if leb total limit then files else rest

  unfoldable pub apply_max_total_size : (limit : ℕ) → List FileInfo → List FileInfo
  unfolding total_size_loop calculate_total_size get_oldest_existing_files
  apply_max_total_size limit files =
      if limit == 0
      then files
      else if leb (calculate_total_size files) limit
      then files
      else total_size_loop limit (get_oldest_existing_files files) (calculate_total_size files)
          files

pub record RetentionOptions : Type 0 where
  pub max_files : ℕ
  pub max_age_ms : ℕ
  pub max_total_size : ℕ

abbrev pub is_empty_options : RetentionOptions → Bool
is_empty_options o = o.max_files == 0 && (o.max_age_ms == 0 && o.max_total_size == 0)

-- The files that matched, and which of them were deleted. Nothing is looked for where there is no name
-- to keep or no limit.
unfoldable pub clean_files :
    (can_remove pattern : List ℕ → Bool)
    → (now : ℕ) → List DirectoryEntry
    → List ℕ
    → RetentionOptions
    → List FileInfo
unfolding find_matching_files sort_newest_first apply_max_files apply_max_age apply_max_total_size
clean_files can_remove pattern now entries keep o =
    let files = sort_newest_first (find_matching_files pattern entries) in
    if is_empty keep || is_empty_options o
    then []
    else apply_max_total_size can_remove keep o.max_total_size (
        apply_max_age can_remove keep o.max_age_ms now
          (apply_max_files can_remove keep o.max_files files))
