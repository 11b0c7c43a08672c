-- ===== src/Paging.antt =====
-- The page tables of mp3/student-distrib/page.c. A table of 1024 entries is a function of the
-- index; an entry is a record of its bit fields, and a store into a field keeps the bits that fit.
pub mod Translate
use ece_391_fall.Prelude.{ℕ, zero, suc, ◌+◌, ◌-◌, ◌*◌, ◌/◌, ◌%◌, ◌^◌, bit_or, update}

-- `page_directory_entry_t`.
pub record Pde : Type 0 where
  pub present : ℕ
  pub read_write : ℕ
  pub user_supervisor : ℕ
  pub write_through : ℕ
  pub cache_disabled : ℕ
  pub accessed : ℕ
  pub dirty : ℕ
  pub page_size : ℕ
  pub global_page : ℕ
  pub available : ℕ
  pub page_table_base_address : ℕ

-- `page_table_entry_t`.
pub record Pte : Type 0 where
  pub present : ℕ
  pub read_write : ℕ
  pub user_supervisor : ℕ
  pub write_through : ℕ
  pub cache_disabled : ℕ
  pub accessed : ℕ
  pub dirty : ℕ
  pub page_table_attribute_table : ℕ
  pub global_page : ℕ
  pub available : ℕ
  pub page_base_address : ℕ

abbrev pub kernel_addr : ℕ
kernel_addr = 4194304

abbrev pub video : ℕ
video = 0xB8000

-- The three tables, the addresses that the linker gives the second and the third, and the
-- control registers.
pub record Paging : Type 0 where
  pub page_directory : ℕ → Pde
  pub page_table : ℕ → Pte
  pub user_video_page_table : ℕ → Pte
  pub page_directory_addr : ℕ
  pub page_table_addr : ℕ
  pub user_video_page_table_addr : ℕ
  pub cr0 : ℕ
  pub cr3 : ℕ
  pub cr4 : ℕ

-- The entries of value 0.
abbrev pub zero_pde : Pde
zero_pde = record {
  present = 0;
  read_write = 0;
  user_supervisor = 0;
  write_through = 0;
  cache_disabled = 0;
  accessed = 0;
  dirty = 0;
  page_size = 0;
  global_page = 0;
  available = 0;
  page_table_base_address = 0;
}

abbrev pub zero_pte : Pte
zero_pte = record {
  present = 0;
  read_write = 0;
  user_supervisor = 0;
  write_through = 0;
  cache_disabled = 0;
  accessed = 0;
  dirty = 0;
  page_table_attribute_table = 0;
  global_page = 0;
  available = 0;
  page_base_address = 0;
}

unfoldable pub set_pde : (ℕ → Pde) → ℕ → ℕ → ℕ → ℕ → ℕ → ℕ → Pde
set_pde directory index address ps g u_s = update directory index (record {
  present = 1;
  read_write = 1;
  user_supervisor = u_s % 2;
  write_through = 0;
  cache_disabled = 0;
  accessed = 0;
  dirty = 0;
  page_size = ps % 2;
  global_page = g % 2;
  available = 0;
  page_table_base_address = address % 2 ^ 20;
})

unfoldable pub set_pte : (ℕ → Pte) → ℕ → ℕ → ℕ → ℕ → Pte
set_pte table index address u_s = update table index (record {
  present = 1;
  read_write = 1;
  user_supervisor = u_s % 2;
  write_through = 0;
  cache_disabled = 0;
  accessed = 0;
  dirty = 0;
  page_table_attribute_table = 0;
  global_page = 0;
  available = 0;
  page_base_address = address % 2 ^ 20;
})

unfoldable pub set_crs : Paging → Paging
set_crs p = record p {
  cr3 = p.page_directory_addr;
  cr4 = bit_or p.cr4 0x90;
  cr0 = bit_or p.cr0 0x80000000;
}

-- The loop that clears the directory and the table, from entry `i` with `k` rounds left.
pub clear_entries : ℕ → ℕ → Paging → Paging
clear_entries zero i p = p
clear_entries (suc k) i p = clear_entries k (i + 1) (record p {
  page_directory = update p.page_directory i zero_pde;
  page_table = update p.page_table i zero_pte;
})

-- The entries that page_init sets after the loop.
pub set_kernel_entries : Paging → Paging
unfolding set_pde set_pte
set_kernel_entries p =
    let frame : ℕ = video / 2 ^ 12 in
    let t = set_pte p.page_table frame frame 0 in
    let t = set_pte t (frame + 2) (frame + 2) 0 in
    let t = set_pte t (frame + 3) (frame + 3) 0 in
    let t = set_pte t (frame + 4) (frame + 4) 0 in
    let d = set_pde p.page_directory 0 (p.page_table_addr / 2 ^ 12) 0 0 0 in
    let d = set_pde d 1 (kernel_addr / 2 ^ 12) 1 1 0 in
    record p { page_directory = d; page_table = t }

unfoldable pub page_init : Paging → Paging
page_init p = set_crs (set_kernel_entries (clear_entries 1024 0 p))
