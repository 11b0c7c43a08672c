-- ===== src/Process/Pages.antt =====
-- The 4 MB page of the user program. The page directory's entry 32 says which frame stands at the
-- user addresses; when it changes, the contents of the old frame are kept and those of the new
-- one appear.
use ece_391_fall.Prelude.{
  ℕ, ◌+◌, ◌-◌, ◌*◌, ◌/◌, ◌%◌, ◌^◌, ◌≤◌, ◌<◌, ◌≡◌, ◌≢◌, refl, ap, ◌∙◌, arith, ◌&&◌, ltb, leb,
  if◌then◌else◌, add32, update, update-same, update-other, true,
}
use ece_391_fall.Memory.{Mem}
use ece_391_fall.Paging.{set_pde, kernel_addr}
use ece_391_fall.Keyboard.{with_console}
use ece_391_fall.Process.{System, kernel_bottom_addr, user_addr, user_stack_addr}

-- `(KERNEL_BOTTOM_ADDR + pid * KERNEL_ADDR) >> 12`.
abbrev pub user_frame : ℕ → ℕ
user_frame pid = add32 kernel_bottom_addr ((pid * kernel_addr) % 2 ^ 32) / 2 ^ 12

-- The frame that stands at the user addresses.
abbrev pub mapped_frame : System → ℕ
mapped_frame s = (s.keyboard.console.paging.page_directory 32).page_table_base_address

abbrev pub IsUser : ℕ → Type 0
IsUser a = (user_addr ≤ a) × (a < user_stack_addr)

-- The directory entry for the process, and the flush of the TLB.
unfoldable pub map_user : ℕ → System → System
unfolding set_pde
map_user pid s =
    let c = s.keyboard.console in
    let pages = update s.user_pages (mapped_frame s) (λ off. s.mem (user_addr + off)) in
    let c' = record c {
      paging = record (c.paging) {
        page_directory =
            set_pde c.paging.page_directory (user_addr / 2 ^ 22) (user_frame pid) 1 0 1;
      };
    } in
    record s {
      keyboard = with_console c' s.keyboard;
      user_pages = pages;
      mem = λ a.
          if leb user_addr a && ltb a user_stack_addr
          then pages (user_frame pid % 2 ^ 20) (a - user_addr)
          else s.mem a;
    }

pub map_user-frame :
    (pid : ℕ) (s : System) → mapped_frame (map_user pid s) ≡ user_frame pid % 2 ^ 20
unfolding map_user set_pde
map_user-frame pid s = refl

-- The tables stay as they are.
pub map_user-tables :
    (pid : ℕ) (s : System)
    → ((map_user pid s).pid_bitmap ≡ s.pid_bitmap)
      × ((map_user pid s).schedule ≡ s.schedule)
      × ((map_user pid s).pcb_at ≡ s.pcb_at)
      × ((map_user pid s).esp ≡ s.esp)
unfolding map_user
map_user-tables pid s = (refl, refl, refl, refl)

-- What stands in the frames once the mapped one is saved.
abbrev pub saved_pages : System → ℕ → ℕ → ℕ
saved_pages s = update s.user_pages (mapped_frame s) (λ off. s.mem (user_addr + off))

user_test : (a : ℕ) → IsUser a → (leb user_addr a && ltb a user_stack_addr) ≡ true
user_test a h = ground (arith, h.0, h.1)

map_user-mem :
    (pid a : ℕ) (s : System)
    → IsUser a
    → (map_user pid s).mem a ≡ saved_pages s (user_frame pid % 2 ^ 20) (a - user_addr)
unfolding map_user
map_user-mem pid a s h = rw (user_test a h) refl

frames_differ : (p q : ℕ) → p < 6 → q < 6 → p ≢ q → user_frame q % 2 ^ 20 ≢ user_frame p % 2 ^ 20
frames_differ p q hp hq ne e = ne (omega (arith, e))

-- A process finds its memory as it left it: whatever another of the six processes writes while it is
-- mapped instead, the user addresses hold the same bytes when the first one is mapped again.
pub map_user-isolated :
    (p q : ℕ) (s : System) (written : Mem) (a : ℕ)
    → p < 6
    → q < 6
    → p ≢ q
    → mapped_frame s ≡ user_frame p
    → IsUser a
    → (map_user p (record (map_user q s) { mem = written })).mem a ≡ s.mem a
unfolding map_user set_pde
map_user-isolated p q s written a hp hq ne at user =
    let s' = record (map_user q s) { mem = written } in
    let own : user_frame p % 2 ^ 20 ≡ mapped_frame s = omega (arith, at) in
    let kept : saved_pages s' (user_frame p % 2 ^ 20) ≡ (λ off. s.mem (user_addr + off)) =
      update-other (saved_pages s) (user_frame q % 2 ^ 20) (λ off. written (user_addr + off))
        (user_frame p % 2 ^ 20) (frames_differ p q hp hq ne)
      ∙ rw own (update-same s.user_pages (mapped_frame s) (λ off. s.mem (user_addr + off))) in
    map_user-mem p a s' user
    ∙ ap (λ (f : ℕ → ℕ). f (a - user_addr)) kept
    ∙ ap s.mem (omega (arith, user.0))
