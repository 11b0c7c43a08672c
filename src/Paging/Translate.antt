-- ===== src/Paging/Translate.antt =====
-- What the page tables mean to the processor, and what page_init maps.
use ece_391_fall.Prelude.{
  Bool, ℕ, zero, suc, ◌+◌, ◌-◌, ◌*◌, ◌/◌, ◌%◌, ◌^◌, ◌≤◌, ◌<◌, ◌≡◌, refl, arith, Option, none, some,
  ltb, leb, ◌&&◌, ◌||◌, ◌==◌, if◌then◌else◌, update,
}
use ece_391_fall.Paging.{
  Pde, Pte, Paging, kernel_addr, set_pde, set_crs, clear_entries, set_kernel_entries, page_init,
  zero_pde, zero_pte,
}

-- The page table that a directory entry points to: one of the two that the kernel has.
abbrev pub table_at : Paging → ℕ → Option (ℕ → Pte)
table_at p base =
    if base == p.page_table_addr / 2 ^ 12
    then some p.page_table
    else if base == p.user_video_page_table_addr / 2 ^ 12
    then some p.user_video_page_table
    else none

-- The step from a page table to the physical address.
abbrev pub walk_table : Option (ℕ → Pte) → ℕ → Option ℕ
walk_table none a = none
walk_table (some t) a =
    let e = t (a / 2 ^ 12 % 1024) in
    if e.present == 1 then some (e.page_base_address * 2 ^ 12 + a % 2 ^ 12) else none

-- The processor's walk: the physical address of a virtual one, `none` for a page fault.
abbrev pub translate : Paging → ℕ → Option ℕ
translate p a =
    let d = p.page_directory (a / 2 ^ 22) in
    if d.present == 1
    then if d.page_size == 1
      then some (d.page_table_base_address * 2 ^ 12 + a % 2 ^ 22)
      else walk_table (table_at p d.page_table_base_address) a
    else none

-- The loop clears the entries that it passes and no other.
clear_entries_lem :
    (k i : ℕ) (p : Paging) (j : ℕ)
    → ((clear_entries k i p).page_directory j
        ≡ (if leb i j && ltb j (i + k) then zero_pde else p.page_directory j))
      × ((clear_entries k i p).page_table j
          ≡ (if leb i j && ltb j (i + k) then zero_pte else p.page_table j))
unfolding clear_entries
clear_entries_lem zero i p j = (ground arith, ground arith)
clear_entries_lem (suc k) i p j =
    let q : Paging = record p {
      page_directory = update p.page_directory i zero_pde;
      page_table = update p.page_table i zero_pte;
    } in
    (
      ground (arith, (clear_entries_lem k (i + 1) q j).0),
      ground (arith, (clear_entries_lem k (i + 1) q j).1),
    )

clear_entries-addr :
    (k i : ℕ) (p : Paging) → (clear_entries k i p).page_table_addr ≡ p.page_table_addr
unfolding clear_entries
clear_entries-addr zero i p = refl
clear_entries-addr (suc k) i p = clear_entries-addr k (i + 1) _

-- The entry that the first slot of the directory gets.
abbrev low_pde : Paging → Pde
low_pde p = record zero_pde {
  present = 1;
  read_write = 1;
  page_table_base_address = p.page_table_addr / 2 ^ 12 % 2 ^ 20;
}

abbrev kernel_pde : Pde
kernel_pde = record zero_pde {
  present = 1;
  read_write = 1;
  page_size = 1;
  global_page = 1;
  page_table_base_address = 1024;
}

abbrev frame_pte : ℕ → Pte
frame_pte j = record zero_pte { present = 1; read_write = 1; page_base_address = j }

set_kernel_entries-directory :
    (p : Paging) (j : ℕ)
    → (set_kernel_entries p).page_directory j
      ≡ (if 1 == j then kernel_pde else if 0 == j then low_pde p else p.page_directory j)
unfolding set_kernel_entries
set_kernel_entries-directory p j = refl

page_init-directory :
    (p : Paging) (j : ℕ)
    → j < 1024
    → (page_init p).page_directory j
      ≡ (if 1 == j then kernel_pde else if 0 == j then low_pde p else zero_pde)
unfolding page_init set_crs
page_init-directory p j h =
    let q = clear_entries 1024 0 p in
    let e : q.page_directory j ≡ zero_pde = ground (arith, (clear_entries_lem 1024 0 p j).0) in
    rw (set_kernel_entries-directory q j, e, clear_entries-addr 1024 0 p)

-- The frames of the screen and of the three backup screens.
abbrev pub is_screen : ℕ → Bool
is_screen j = 0xBC == j || 0xBB == j || 0xBA == j || 0xB8 == j

set_kernel_entries-table :
    (p : Paging) (j : ℕ)
    → (set_kernel_entries p).page_table j ≡ (if is_screen j then frame_pte j else p.page_table j)
unfolding set_kernel_entries
set_kernel_entries-table p j = ground arith

page_init-table :
    (p : Paging) (j : ℕ)
    → j < 1024
    → (page_init p).page_table j ≡ (if is_screen j then frame_pte j else zero_pte)
unfolding page_init set_crs
page_init-table p j h =
    let q = clear_entries 1024 0 p in
    let e : q.page_table j ≡ zero_pte = ground (arith, (clear_entries_lem 1024 0 p j).1) in
    rw (set_kernel_entries-table q j, e)

page_init-addr : (p : Paging) → (page_init p).page_table_addr ≡ p.page_table_addr
unfolding page_init set_crs set_kernel_entries
page_init-addr p = clear_entries-addr 1024 0 p

-- The kernel's 4 MB and the four screens.
abbrev pub kernel_maps : ℕ → Bool
kernel_maps a =
    (leb kernel_addr a && ltb a (kernel_addr + 2 ^ 22))
    || (ltb a (2 ^ 22) && is_screen (a / 2 ^ 12))

-- After page_init the processor maps the kernel's 4 MB page and the pages of the screen and of the
-- three backup screens to themselves, and every other address faults.
pub translate-page_init :
    (p : Paging) (a : ℕ)
    → p.page_table_addr < 2 ^ 32
    → a < 2 ^ 32
    → translate (page_init p) a ≡ (if kernel_maps a then some a else none)
translate-page_init p a hp ha = ground (
  arith,
  page_init-directory p (a / 2 ^ 22) (omega arith),
  page_init-addr p,
  page_init-table p (a / 2 ^ 12 % 1024) (omega arith),
)

-- With the directory entry that execute, halt and the scheduler set for a process below 6, the
-- processor maps each address of the user program to that process's own 4 MB of physical memory.
pub translate-user :
    (p : Paging) (pid a : ℕ)
    → pid < 6
    → 0x8000000 ≤ a
    → a < 0x8400000
    → translate
        (record p {
          page_directory =
              set_pde p.page_directory 32 ((0x800000 + pid * kernel_addr) / 2 ^ 12) 1 0 1;
        })
        a
      ≡ some (0x800000 + pid * 2 ^ 22 + (a - 0x8000000))
unfolding set_pde
translate-user p pid a h lo hi = ground arith
