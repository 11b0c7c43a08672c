-- ===== src/Process/SystemCalls/Descriptors.antt =====
-- The file descriptors of a process: which one open takes, and that close gives it back.
use ece_391_fall.Prelude.{
  ℕ, zero, suc, ◌+◌, ◌<◌, ◌≤◌, ◌≡◌, ◌≢◌, subst, update-same, update-other, update-same,
  update-other, inl, inr, refl, sym, ap, ◌∙◌, arith, Bool-cases, ==_iff, false, ◌||◌, List, Option,
  none, some, ◌==◌, update, minus_one, sle,
}
use ece_391_fall.FileSystem.{Dentry, read_dentry_by_name}
use ece_391_fall.Process.{
  Driver, rtc, directory, file, terminal, invalid, FileDescriptor, Pcb, get_cur_pcb_ptr, System,
  cur_pcb, descriptor, set_descriptor,
}
use ece_391_fall.Process.SystemCalls.{
  driver_open, driver_close, find_free, driver_of_type, opened, open_file, close_file, open_dentry,
}

-- Descriptor `i` is the first that is free.
abbrev pub FirstFree : (ℕ → FileDescriptor) → ℕ → Type 0
FirstFree fds i = ((fds i).flags ≡ 0) × ((j : ℕ) → j < i → (fds j).flags ≢ 0)

absurd_flag : (a : ℕ) → (a == 0) ≡ false → ¬ (a ≡ 0)
absurd_flag a e h = ground (arith, e, h)

stuck : (i n : ℕ) → i ≤ n → ¬ (n < i + zero)
stuck i n h h' = omega arith

find_free-some :
    (k i n : ℕ) (fds : ℕ → FileDescriptor)
    → i ≤ n
    → n < i + k
    → FirstFree fds n
    → find_free k i fds ≡ some n
unfolding find_free
find_free-some zero i n fds low high first = elim (stuck i n low high) [ ]
find_free-some (suc k) i n fds low high first = elim (Bool-cases ((fds i).flags == 0)) [
  | inl e ↦ elim (Bool-cases (i == n)) [
    | inl f ↦ rw (e, find_free) (ap some ((==_iff i n).0 f))
    | inr f ↦ elim (first.1 i (ground (arith, f, low)) ((==_iff (fds i).flags 0).0 e)) [ ]
  ]
  | inr e ↦ elim (Bool-cases (i == n)) [
    | inl f ↦
        elim (absurd_flag ((fds i).flags) e
          (subst (λ j. (fds j).flags ≡ 0) (sym ((==_iff i n).0 f)) first.0)) [ ]
    | inr f ↦
        rw (e, find_free)
          (find_free-some k (i + 1) n fds (ground (arith, f, low)) (omega arith) first)
  ]
]

find_free-none :
    (k i : ℕ) (fds : ℕ → FileDescriptor)
    → ((j : ℕ) → j < i + k → (fds j).flags ≢ 0)
    → find_free k i fds ≡ none
unfolding find_free
find_free-none zero i fds full = refl
find_free-none (suc k) i fds full = elim (Bool-cases ((fds i).flags == 0)) [
  | inl e ↦ elim (full i (omega arith) ((==_iff (fds i).flags 0).0 e)) [ ]
  | inr e ↦ rw (e, find_free) (find_free-none k (i + 1) fds (λ j h. full j (omega arith)))
]

driver_open-frame :
    (d : Driver) (name : Option (List ℕ)) (s : System)
    → ((driver_open d name s).1.pcb_at ≡ s.pcb_at) × ((driver_open d name s).1.esp ≡ s.esp)
unfolding driver_open
driver_open-frame rtc name s = (refl, refl)
driver_open-frame directory name s = (refl, refl)
driver_open-frame file name s = (refl, refl)
driver_open-frame terminal name s = (refl, refl)
driver_open-frame invalid name s = (refl, refl)

driver_close-frame :
    (d : Driver) (fd : ℕ) (s : System)
    → ((driver_close d fd s).1.pcb_at ≡ s.pcb_at) × ((driver_close d fd s).1.esp ≡ s.esp)
unfolding driver_close
driver_close-frame rtc name s = (refl, refl)
driver_close-frame directory name s = (refl, refl)
driver_close-frame file name s = (refl, refl)
driver_close-frame terminal name s = (refl, refl)
driver_close-frame invalid name s = (refl, refl)

open_dentry-full :
    (name : Option (List ℕ)) (o : Option Dentry) (s : System)
    → open_dentry name o none s ≡ (minus_one, s)
open_dentry-full name none s = refl
open_dentry-full name (some dentry) s = refl

-- A descriptor after a store into one.
descriptor-set :
    (fd : ℕ) (d : FileDescriptor) (s : System) (j : ℕ)
    → descriptor (set_descriptor fd d s) j ≡ update (cur_pcb s).file_descriptor_array fd d j
descriptor-set fd d s j =
    let p = cur_pcb s in
    ap (λ (q : Pcb). q.file_descriptor_array j)
      (update-same s.pcb_at (get_cur_pcb_ptr s.esp)
        (record p { file_descriptor_array = update p.file_descriptor_array fd d }))

-- The blocks and the stack pointer determine the descriptors.
descriptor-frame :
    (s s' : System)
    → (s'.pcb_at ≡ s.pcb_at) × (s'.esp ≡ s.esp)
    → (j : ℕ) → descriptor s' j ≡ descriptor s j
descriptor-frame s s' (e, f) j = rw (e, f) refl

-- The first free descriptor is returned and set up.
open_file_lem :
    (name : Option (List ℕ)) (s : System) (dentry : Dentry) (d : Driver) (i : ℕ)
    → read_dentry_by_name s.file_system s.mem name ≡ some dentry
    → driver_of_type dentry.file_type ≡ some d
    → i < 8
    → FirstFree (cur_pcb s).file_descriptor_array i
    → ((open_file name s).0 ≡ i)
      × ((j : ℕ)
          → descriptor (open_file name s).1 j
            ≡ update (cur_pcb s).file_descriptor_array i (opened d dentry) j)
unfolding open_file
open_file_lem name s dentry d i found typed bound first =
    rw
      (
        found,
        find_free-some 8 0 i (cur_pcb s).file_descriptor_array (omega arith) (omega arith) first,
        typed,
      )
      (
        refl,
        λ j.
            let s' = set_descriptor i (opened d dentry) s in
            descriptor-frame s' (driver_open d name s').1 (driver_open-frame d name s') j
            ∙ descriptor-set i (opened d dentry) s j,
      )

-- The driver of each file type: 0 is the real-time clock, 1 the directory, 2 a regular file.
abbrev pub IsDriver : ℕ → Driver → Type 0
IsDriver filetype rtc = filetype ≡ 0
IsDriver filetype directory = filetype ≡ 1
IsDriver filetype file = filetype ≡ 2
IsDriver filetype terminal = ⊥
IsDriver filetype invalid = ⊥

driver_of_type-IsDriver :
    (filetype : ℕ) (d : Driver) → IsDriver filetype d → driver_of_type filetype ≡ some d
unfolding driver_of_type
driver_of_type-IsDriver filetype rtc e = rw e refl
driver_of_type-IsDriver filetype directory e = rw e refl
driver_of_type-IsDriver filetype file e = rw e refl
driver_of_type-IsDriver filetype terminal e = absurd e
driver_of_type-IsDriver filetype invalid e = absurd e

-- The descriptor is in use for the driver and the inode, from the beginning.
abbrev pub IsFresh : Driver → ℕ → FileDescriptor → Type 0
IsFresh d inode fd =
    (fd.file_operations_table_ptr.open_op ≡ d)
    × (fd.file_operations_table_ptr.close_op ≡ d)
    × (fd.file_operations_table_ptr.read_op ≡ d)
    × (fd.file_operations_table_ptr.write_op ≡ d)
    × (fd.inode ≡ inode)
    × (fd.file_position ≡ 0)
    × (fd.flags ≡ 1)

-- open of a file that exists and is of type 0, 1 or 2 returns the first free descriptor, if one of the eight is
-- free. All four operations of that descriptor are then those of the real-time clock for type 0, of the
-- directory for type 1 and of a regular file for type 2; its inode is the file's, its position 0 and its flags
-- 1; every other descriptor stays as it is.
pub open_file-IsFresh :
    (name : Option (List ℕ)) (s : System) (dentry : Dentry) (d : Driver) (i : ℕ)
    → read_dentry_by_name s.file_system s.mem name ≡ some dentry
    → IsDriver dentry.file_type d
    → i < 8
    → FirstFree (cur_pcb s).file_descriptor_array i
    → ((open_file name s).0 ≡ i)
      × IsFresh d dentry.inode_num (descriptor (open_file name s).1 i)
      × ((j : ℕ) → j ≢ i → descriptor (open_file name s).1 j ≡ descriptor s j)
open_file-IsFresh name s dentry d i found typed bound first =
    let (at, set) =
      open_file_lem name s dentry d i found (driver_of_type-IsDriver dentry.file_type d typed) bound
        first in
    let own = set i ∙ update-same (cur_pcb s).file_descriptor_array i (opened d dentry) in
    (
      at,
      subst (IsFresh d dentry.inode_num) (sym own) (refl, refl, refl, refl, refl, refl, refl),
      λ j ne.
          set j
          ∙ update-other (cur_pcb s).file_descriptor_array i (opened d dentry) j (λ e. ne (sym e)),
    )

-- open fails, and leaves the system as it is, if all eight descriptors are in use.
pub open_file-full :
    (name : Option (List ℕ)) (s : System)
    → ((j : ℕ) → j < 8 → (descriptor s j).flags ≢ 0)
    → open_file name s ≡ (minus_one, s)
unfolding open_file
open_file-full name s full =
    rw (find_free-none 8 0 (cur_pcb s).file_descriptor_array full) (open_dentry-full name _ s)

closed-frame :
    (s s' : System)
    → (s'.pcb_at ≡ s.pcb_at) × (s'.esp ≡ s.esp)
    → (fd j : ℕ)
    → update (cur_pcb s').file_descriptor_array fd (record (descriptor s' fd) { flags = 0 }) j
      ≡ update (cur_pcb s).file_descriptor_array fd (record (descriptor s fd) { flags = 0 }) j
closed-frame s s' (e, f) fd j = rw (e, f) refl

close_bounds : (fd : ℕ) → 2 ≤ fd → fd < 8 → (sle fd 1 || sle 8 fd) ≡ false
close_bounds fd low high = ground arith

used_flag : (a : ℕ) → a ≢ 0 → (a == 0) ≡ false
used_flag a h = ground (arith, h)

apart_of : (j i : ℕ) → j < i → i ≢ j
apart_of j i h = omega (arith, h)

one_flag : (a : ℕ) → a ≡ 1 → a ≢ 0
one_flag a e = ground (arith, e)

-- Closing a descriptor from 2 to 7 that is in use returns 0 and frees it; the other descriptors stay.
pub close_file_lem :
    (fd : ℕ) (s : System)
    → 2 ≤ fd
    → fd < 8
    → (descriptor s fd).flags ≢ 0
    → ((close_file fd s).0 ≡ 0)
      × ((j : ℕ)
          → descriptor (close_file fd s).1 j
            ≡ update
                (cur_pcb s).file_descriptor_array
                fd
                (record (descriptor s fd) { flags = 0 })
                j)
unfolding close_file
close_file_lem fd s low high used =
    let c = driver_close (descriptor s fd).file_operations_table_ptr.close_op fd s in
    let frame = driver_close-frame (descriptor s fd).file_operations_table_ptr.close_op fd s in
    rw (close_bounds fd low high, used_flag (descriptor s fd).flags used, close_file)
      (
        refl,
        λ j.
            descriptor-set fd (record (descriptor c.1 fd) { flags = 0 }) c.1 j
            ∙ closed-frame s c.1 frame fd j,
      )

-- What open returned can be closed, unless it is 0 or 1, and then it is the first free descriptor
-- again: whatever a file's type, no descriptor is lost.
pub open_file-close_file :
    (name : Option (List ℕ)) (s : System) (dentry : Dentry) (d : Driver) (i : ℕ)
    → read_dentry_by_name s.file_system s.mem name ≡ some dentry
    → driver_of_type dentry.file_type ≡ some d
    → 2 ≤ i
    → i < 8
    → FirstFree (cur_pcb s).file_descriptor_array i
    → let after = close_file (open_file name s).0 (open_file name s).1 in
      (after.0 ≡ 0) × FirstFree (cur_pcb after.1).file_descriptor_array i
open_file-close_file name s dentry d i found typed low high first =
    let (at, set) = open_file_lem name s dentry d i found typed high first in
    let s' = (open_file name s).1 in
    let new : (descriptor s' i) ≡ opened d dentry =
      set i ∙ update-same (cur_pcb s).file_descriptor_array i (opened d dentry) in
    let (zero_result, freed) =
      close_file_lem i s' low high (one_flag _ (ap (λ (q : FileDescriptor). q.flags) new)) in
    rw at (
      zero_result,
      (
        ap (λ (q : FileDescriptor). q.flags)
            (freed i ∙ update-same (cur_pcb s').file_descriptor_array i _),
        λ j h e. first.1 j h (
            ap (λ (q : FileDescriptor). q.flags)
              (sym (set j ∙ update-other (cur_pcb s).file_descriptor_array i _ j (apart_of j i h))
                ∙ sym (
                    freed j
                    ∙ update-other (cur_pcb s').file_descriptor_array i _ j (apart_of j i h)))
            ∙ e),
      ),
    )
