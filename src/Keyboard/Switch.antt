-- ===== src/Keyboard/Switch.antt =====
-- Switching terminals keeps what every terminal shows.
use ece_391_fall.Prelude.{
  ℕ, ◌+◌, ◌*◌, ◌/◌, ◌^◌, ◌<◌, ◌≡◌, ◌≢◌, refl, ap, ◌∙◌, arith, true, false, fun_ext, ℕ_discrete,
  ◌==◌,
}
use ece_391_fall.Memory.{Mem}
use ece_391_fall.Memory.Copy.{copied, memcpy_lem}
use ece_391_fall.Paging.{video}
use ece_391_fall.Console.{Console, screen_frame, memory_switch, update_cursor}
use ece_391_fall.Console.Mapping.{IsMapped, TerminalIds, memory_switch_lem, video_frame}
use ece_391_fall.Keyboard.{switch_terminal, copy_page}

-- The bytes that terminal `t` shows, or will show when it is on the screen.
abbrev pub screen : Console → ℕ → ℕ → ℕ
screen s t off = s.vmem (screen_frame s.cur_terminal t * 4096 + off)

-- The backup pages are mapped to themselves, as page_init leaves them.
abbrev pub IsPaged : Console → Type 0
IsPaged s = (t : ℕ) → t < 3 → (s.paging.page_table (0xBA + t)).page_base_address ≡ 0xBA + t

-- Two whole pages, copied.
copy_page_lem :
    (dest src a : ℕ) (s : Console) (f g : ℕ)
    → (s.paging.page_table (dest / 2 ^ 12)).page_base_address ≡ f
    → (s.paging.page_table (src / 2 ^ 12)).page_base_address ≡ g
    → f ≢ g
    → (copy_page dest src s).vmem a ≡ copied s.vmem (f * 4096) (g * 4096) 4096 a
copy_page_lem dest src a s f g ef eg ne =
    rw (ef, eg) (memcpy_lem s.vmem (f * 4096) (g * 4096) 4096 a (ground arith))

-- The memory after a switch to another terminal: the display is saved to its backup, and the
-- other backup comes on the display.
abbrev swapped : Console → ℕ → Mem
swapped s id =
    copied (copied s.vmem ((0xBA + s.cur_terminal) * 4096) (0xB8 * 4096) 4096) (0xB8 * 4096)
      ((0xBA + id) * 4096) 4096

memory_switch-vmem :
    (id : ℕ) (s : Console)
    → ((memory_switch id s).vmem ≡ s.vmem) × ((memory_switch id s).terminal ≡ s.terminal)
unfolding memory_switch
memory_switch-vmem id s = (refl, refl)

-- memory_switch leaves the backup pages where they are.
memory_switch-IsPaged : (id : ℕ) (s : Console) → id < 3 → IsPaged s → IsPaged (memory_switch id s)
memory_switch-IsPaged id s h paged t ht =
    rw ((memory_switch_lem id s (0xBA + t) h).1 (omega arith)) (paged t ht)

backup_frame :
    (s : Console) (t : ℕ)
    → t < 3
    → IsPaged s
    → (s.paging.page_table ((video + (t + 2) * 4096) / 2 ^ 12)).page_base_address ≡ 0xBA + t
backup_frame s t h paged =
    let page : (video + (t + 2) * 4096) / 2 ^ 12 ≡ 0xBA + t = omega arith in rw page (paged t h)

-- The state in which the copies are made.
abbrev displayed : Console → Console
displayed s = memory_switch s.cur_terminal s

displayed-frame : (s : Console) → s.cur_terminal < 3 → video_frame (displayed s) ≡ 0xB8
displayed-frame s h = ground (arith, (memory_switch_lem s.cur_terminal s 0 h).0)

-- The state after both copies.
abbrev copies : ℕ → Console → Console
copies id s =
    copy_page video (video + (id + 2) * 4096)
      (copy_page (video + (s.cur_terminal + 2) * 4096) video (displayed s))

copies-vmem :
    (id : ℕ) (s : Console) (a : ℕ)
    → id < 3
    → s.cur_terminal < 3
    → IsPaged s
    → (copies id s).vmem a ≡ swapped s id a
copies-vmem id s a hid hcur paged =
    let s1 = displayed s in
    let paged1 = memory_switch-IsPaged s.cur_terminal s hcur paged in
    let s2 = copy_page (video + (s.cur_terminal + 2) * 4096) video s1 in
    copy_page_lem video (video + (id + 2) * 4096) a s2 0xB8 (0xBA + id) (displayed-frame s hcur)
      (backup_frame s1 id hid paged1) (omega arith)
    ∙ ap (λ (m : Mem). copied m (0xB8 * 4096) ((0xBA + id) * 4096) 4096 a)
        (fun_ext λ x.
          copy_page_lem (video + (s.cur_terminal + 2) * 4096) video x s1 (0xBA + s.cur_terminal)
            0xB8 (backup_frame s1 s.cur_terminal hcur paged1) (displayed-frame s hcur) (omega arith)
          ∙ ap (λ (m : Mem). copied m ((0xBA + s.cur_terminal) * 4096) (0xB8 * 4096) 4096 x)
              (memory_switch-vmem s.cur_terminal s).0)

-- What a switch to another terminal leaves: the copies, the new number on the screen, and the
-- running terminal's screen behind the video page.
record Switched (id : ℕ) (s s' : Console) : Type 0 where
  memory : (a : ℕ) → s'.vmem a ≡ (copies id s).vmem a
  current : s'.cur_terminal ≡ id
  running : s'.run_terminal ≡ s.run_terminal
  mapped : video_frame s' ≡ screen_frame id s.run_terminal
  terminals : s'.terminal ≡ s.terminal

switch_terminal-Switched :
    (id : ℕ) (s : Console)
    → s.run_terminal < 3
    → s.cur_terminal ≢ id
    → Switched id s (switch_terminal id s)
unfolding switch_terminal update_cursor memory_switch
switch_terminal-Switched id s hrun ne =
    let other : (s.cur_terminal == id) ≡ false = ground arith in
    rw (other, switch_terminal)
      (record {
        memory = λ a. refl;
        current = refl;
        running = refl;
        mapped = ground arith;
        terminals = refl;
      })

switch_terminal_self : (id : ℕ) (s : Console) → s.cur_terminal ≡ id → switch_terminal id s ≡ s
unfolding switch_terminal
switch_terminal_self id s e =
    let same : (s.cur_terminal == id) ≡ true = ground arith in rw (same, switch_terminal)

swapped-screen :
    (id t off : ℕ) (s : Console)
    → id < 3
    → s.cur_terminal < 3
    → s.cur_terminal ≢ id
    → t < 3
    → off < 4096
    → swapped s id (screen_frame id t * 4096 + off) ≡ screen s t off
swapped-screen id t off s hid hcur ne ht ho = ground arith

-- With the backup pages mapped to themselves and the running terminal behind the video page, a
-- switch puts terminal `id` on the screen and leaves what each of the three terminals shows, its
-- cursor and the running terminal as they were; the video page stands for the running terminal.
pub switch_terminal_lem :
    (id : ℕ) (s : Console)
    → id < 3
    → TerminalIds s
    → IsPaged s
    → IsMapped s
    → let s' = switch_terminal id s in
      ((t off : ℕ) → t < 3 → off < 4096 → screen s' t off ≡ screen s t off)
      × (s'.cur_terminal ≡ id)
      × (s'.run_terminal ≡ s.run_terminal)
      × (s'.terminal ≡ s.terminal)
      × IsMapped s'
switch_terminal_lem id s hid ids paged mapped = elim (ℕ_discrete s.cur_terminal id) [
  | yes same ↦ rw (switch_terminal_self id s same) ((λ t off ht ho. refl), same, refl, refl, mapped)
  | no other ↦
      let sw = switch_terminal-Switched id s ids.1 other in
      (
        λ t off ht ho. rw sw.current (
            sw.memory _
            ∙ copies-vmem id s _ hid ids.0 paged
            ∙ swapped-screen id t off s hid ids.0 other ht ho),
        sw.current,
        sw.running,
        sw.terminals,
        rw (sw.current, sw.running) sw.mapped,
      )
]
