-- ===== src/FileSystem/Lookup.antt =====
-- Finding a directory entry by name and by index.
use ece_391_fall.Prelude.{
  ℕ, zero, suc, ◌+◌, ◌<◌, ◌≤◌, ◌≡◌, ◌↔◌, inl, inr, refl, List, arith, ltb, ◌==◌, if◌then◌else◌,
  Bool-cases, Option, none, some, subst, ap, minus_one, ==_iff, ltb→lt, dec_le,
}
use ece_391_fall.Memory.{Mem}
use ece_391_fall.Strings.{chars, strlen, strncmp}
use ece_391_fall.Strings.Compare.{IsBytes, SameName, strncmp_iff}
use ece_391_fall.FileSystem.{
  FileSystem, Dentry, num_dir_entries, dir_entry, load_dentry, find_dentry, read_dentry_by_name,
  read_dentry_by_index, has_type, file_open, dir_open,
}

-- The name of entry `i` is `fname`, in its 32 bytes.
abbrev pub Named : FileSystem → Mem → List ℕ → ℕ → Type 0
Named fs m fname i = SameName (chars fname) (λ j. m (dir_entry fs i + j)) 32

-- What a search of the entries from `i` up to `n` answers: the first entry of the name.
abbrev pub FirstNamed : FileSystem → Mem → List ℕ → ℕ → ℕ → Option Dentry → Type 0
FirstNamed fs m fname i n none = (j : ℕ) → i ≤ j → j < n → ¬ Named fs m fname j
FirstNamed fs m fname i n (some d) =
    (j : ℕ) × (i ≤ j)
    × (j < n)
    × Named fs m fname j
    × ((l : ℕ) → i ≤ l → l < j → ¬ Named fs m fname l)
    × (d ≡ load_dentry m (dir_entry fs j))

module _ (fs : FileSystem) (m : Mem) (fname : List ℕ) (hf : IsBytes (chars fname))
    (hm : IsBytes m) where
  -- The code's test at entry `i`.
  Named-iff :
      (i : ℕ) → (strncmp (chars fname) (λ j. m (dir_entry fs i + j)) 32 ≡ 0) ↔ Named fs m fname i
  Named-iff i = strncmp_iff (chars fname) (λ j. m (dir_entry fs i + j)) hf (λ j. hm _) 32

  skip_one :
      (i j : ℕ)
      → ¬ Named fs m fname i
      → i ≤ j
      → (i + 1 ≤ j → ¬ Named fs m fname j)
      → ¬ Named fs m fname j
  skip_one i j not_here h later = elim (Bool-cases (i == j)) [
    | inl e ↦ subst (λ x. ¬ Named fs m fname x) ((==_iff i j).0 e) not_here
    | inr ne ↦ later (ground arith)
  ]

  skip_entry :
      (n i : ℕ) (o : Option Dentry)
      → ¬ Named fs m fname i
      → FirstNamed fs m fname (i + 1) n o
      → FirstNamed fs m fname i n o
  skip_entry n i none not_here h = λ j le lt. skip_one i j not_here le (λ le'. h j le' lt)
  skip_entry n i (some d) not_here (j, le, lt, named, first, e) = (
    j,
    omega arith,
    lt,
    named,
    (λ l le' lt'. skip_one i l not_here le' (λ le''. first l le'' lt')),
    e,
  )

  find_dentry-FirstNamed :
      (k i n : ℕ) → i + k ≡ n → FirstNamed fs m fname i n (find_dentry k fs m fname i)
  unfolding find_dentry
  find_dentry-FirstNamed zero i n e = λ j le lt. absurd (omega arith)
  find_dentry-FirstNamed (suc k) i n e =
      elim (Bool-cases (strncmp (chars fname) (λ j. m (dir_entry fs i + j)) 32 == 0)) [
        | inl hit ↦ rw hit (
          i,
          omega arith,
          omega arith,
          (Named-iff i).0 ((==_iff _ 0).0 hit),
          (λ l le lt. absurd (omega arith)),
          refl,
        )
        | inr miss ↦ rw miss (
            skip_entry n i (find_dentry k fs m fname (i + 1))
              (λ named. cc (miss, (==_iff _ 0).1 ((Named-iff i).1 named)))
              (find_dentry-FirstNamed k (i + 1) n (omega arith)))
      ]

  -- For a name of at most 32 bytes, read_dentry_by_name copies the first directory entry of that
  -- name, and fails exactly when none has it.
  pub read_dentry_by_name-FirstNamed :
      strlen fname ≤ 32
      → FirstNamed fs m fname 0 (num_dir_entries fs m) (read_dentry_by_name fs m (some fname))
  unfolding read_dentry_by_name
  read_dentry_by_name-FirstNamed h = elim (Bool-cases (ltb 32 (strlen fname))) [
    | inl over ↦ absurd (omega (arith, ltb→lt _ _ over))
    | inr fits ↦ rw fits (find_dentry-FirstNamed (num_dir_entries fs m) 0 _ (omega arith))
  ]

-- read_dentry_by_name fails on a null pointer and on a name of more than 32 bytes.
pub read_dentry_by_name-long :
    (fs : FileSystem) (m : Mem) (fname : Option (List ℕ))
    → ((s : List ℕ) → fname ≡ some s → 32 < strlen s)
    → read_dentry_by_name fs m fname ≡ none
unfolding read_dentry_by_name
read_dentry_by_name-long fs m none h = refl
read_dentry_by_name-long fs m (some s) h = ground (arith, h s refl)

-- In a memory of bytes, whatever entry is found by name lies in the directory, and is found again by its index.
pub by_name-by_index :
    (fs : FileSystem) (m : Mem) (fname : List ℕ) (d : Dentry)
    → IsBytes (chars fname)
    → IsBytes m
    → read_dentry_by_name fs m (some fname) ≡ some d
    → (i : ℕ) × (i < num_dir_entries fs m) × (read_dentry_by_index fs m i ≡ some d)
unfolding read_dentry_by_index
by_name-by_index fs m fname d hf hm e = elim (dec_le (strlen fname) 32) [
  | yes short ↦
      let (j, le, lt, named, first, e') =
        found (rw e at (read_dentry_by_name-FirstNamed fs m fname hf hm short)) in
      (j, lt, ground (arith, e'))
  | no long ↦
      absurd (ground (arith, read_dentry_by_name-long fs m (some fname) (λ s e'. ground arith)))
]
  where
    found :
        FirstNamed fs m fname 0 (num_dir_entries fs m) (some d)
        → FirstNamed fs m fname 0 (num_dir_entries fs m) (some d)
    found x = x

has_type_iff :
    (t : ℕ) (o : Option Dentry)
    → ((if has_type t o then 0 else minus_one) ≡ 0)
      ↔ ((d : Dentry) × (o ≡ some d) × (d.file_type ≡ t))
has_type_iff t none = (λ e. absurd (omega (arith, e)), λ h. cc h.1)
has_type_iff t (some d) =
    (λ e. (d, refl, ground arith), λ h. ground (arith, h.2, ap (has_type t) h.1))

-- file_open accepts exactly the names of regular files, dir_open exactly those of directories.
pub opens_iff :
    (fs : FileSystem) (m : Mem) (fname : Option (List ℕ))
    → ((file_open fs m fname ≡ 0)
        ↔ ((d : Dentry) × (read_dentry_by_name fs m fname ≡ some d) × (d.file_type ≡ 2)))
      × ((dir_open fs m fname ≡ 0)
          ↔ ((d : Dentry) × (read_dentry_by_name fs m fname ≡ some d) × (d.file_type ≡ 1)))
unfolding file_open dir_open
opens_iff fs m fname = (has_type_iff 2 _, has_type_iff 1 _)
