-- ===== src/Process/Switching/Halting.antt =====
-- What halt of mp3/student-distrib/system_calls.c does for a process that is no base shell.
use ece_391_fall.Prelude.{
  ℕ, zero, suc, ◌+◌, ◌%◌, ◌^◌, ◌≤◌, ◌<◌, ◌≡◌, ◌≢◌, ◌⊎◌, inl, inr, refl, sym, ap, subst, ◌∙◌, arith,
  Bool-cases, false, ◌||◌, ◌==◌, ==_iff, if◌then◌else◌, update, update-same, ◌*◌, ◌/◌, add32, sub32,
}
use ece_391_fall.Process.{
  Driver, rtc, directory, file, terminal, invalid, Pcb, System, cur_pcb, get_cur_pcb_ptr,
}
use ece_391_fall.Process.SystemCalls.{driver_close}
use ece_391_fall.Process.Pids.Schedule.{finish_from_lem}
use ece_391_fall.Process.Pids.{give_pid, finish_from, execute_esp0}
use ece_391_fall.Process.Pages.{user_frame, mapped_frame, map_user, map_user-frame, map_user-tables}
use ece_391_fall.Process.Switching.{
  Switch, returns, enters, resumes, continues, fault, close_one, close_from, leave, halt,
}

abbrev flags_at : ℕ → ℕ → System → ℕ
flags_at at j s = ((s.pcb_at at).file_descriptor_array j).flags

-- What closing descriptors leaves alone.
record Kept (at : ℕ) (s s' : System) : Type 0 where
  bitmap : s'.pid_bitmap ≡ s.pid_bitmap
  table : s'.schedule ≡ s.schedule
  own : (s'.pcb_at at).pid ≡ (s.pcb_at at).pid
  parent : (s'.pcb_at at).parent_pid ≡ (s.pcb_at at).parent_pid
  base : (s'.pcb_at at).ebp ≡ (s.pcb_at at).ebp
  stack : (s'.pcb_at at).esp ≡ (s.pcb_at at).esp

Kept-refl : (at : ℕ) (s : System) → Kept at s s
Kept-refl at s = record {
  bitmap = refl;
  table = refl;
  own = refl;
  parent = refl;
  base = refl;
  stack = refl;
}

Kept-trans : (at : ℕ) (s s' s'' : System) → Kept at s s' → Kept at s' s'' → Kept at s s''
Kept-trans at s s' s'' h h' = record {
  bitmap = h'.bitmap ∙ h.bitmap;
  table = h'.table ∙ h.table;
  own = h'.own ∙ h.own;
  parent = h'.parent ∙ h.parent;
  base = h'.base ∙ h.base;
  stack = h'.stack ∙ h.stack;
}

driver_close-kept :
    (d : Driver) (fd : ℕ) (s : System)
    → ((driver_close d fd s).1.pid_bitmap ≡ s.pid_bitmap)
      × ((driver_close d fd s).1.schedule ≡ s.schedule)
      × ((driver_close d fd s).1.pcb_at ≡ s.pcb_at)
unfolding driver_close
driver_close-kept rtc fd s = (refl, refl, refl)
driver_close-kept directory fd s = (refl, refl, refl)
driver_close-kept file fd s = (refl, refl, refl)
driver_close-kept terminal fd s = (refl, refl, refl)
driver_close-kept invalid fd s = (refl, refl, refl)

module _ (i at : ℕ) (s : System) where
  abbrev cleared_pcb : Pcb
  cleared_pcb =
      let p = s.pcb_at at in
      record p {
        file_descriptor_array =
            update p.file_descriptor_array i (record (p.file_descriptor_array i) { flags = 0 });
      }

  close_one-clears :
      flags_at at i s ≡ 1
      → ((close_one i at s).pid_bitmap ≡ s.pid_bitmap)
        × ((close_one i at s).schedule ≡ s.schedule)
        × ((close_one i at s).pcb_at at ≡ cleared_pcb)
  unfolding close_one
  close_one-clears e =
      let d = (s.pcb_at at).file_descriptor_array i in
      let s' = record s { pcb_at = update s.pcb_at at cleared_pcb } in
      let kept = driver_close-kept d.file_operations_table_ptr.close_op i s' in
      rw ((==_iff d.flags 1).1 e)
        (kept.0, kept.1, ap (λ (f : ℕ → Pcb). f at) kept.2 ∙ update-same s.pcb_at at cleared_pcb)

  close_one-skips : (flags_at at i s == 1) ≡ false → close_one i at s ≡ s
  unfolding close_one
  close_one-skips e = rw e refl

  close_one-Kept : Kept at s (close_one i at s)
  close_one-Kept = elim (Bool-cases (flags_at at i s == 1)) [
    | inl e ↦
        let (b, t, p) = close_one-clears ((==_iff (flags_at at i s) 1).0 e) in
        record {
          bitmap = b;
          table = t;
          own = ap (λ (q : Pcb). q.pid) p;
          parent = ap (λ (q : Pcb). q.parent_pid) p;
          base = ap (λ (q : Pcb). q.ebp) p;
          stack = ap (λ (q : Pcb). q.esp) p;
        }
    | inr e ↦ subst (Kept at s) (sym (close_one-skips e)) (Kept-refl at s)
  ]

  cleared-flags :
      (j : ℕ) → (i ≡ j) ⊎ (flags_at at j s ≢ 1) → (cleared_pcb.file_descriptor_array j).flags ≢ 1
  cleared-flags j h e = elim (Bool-cases (i == j)) [
    | inl same ↦ ground (arith, same, e)
    | inr apart ↦ ground (arith, apart, h, e)
  ]

  close_one-flags : (j : ℕ) → (i ≡ j) ⊎ (flags_at at j s ≢ 1) → flags_at at j (close_one i at s) ≢ 1
  close_one-flags j h f = elim (Bool-cases (flags_at at i s == 1)) [
    | inl e ↦
        let p = (close_one-clears ((==_iff (flags_at at i s) 1).0 e)).2 in
        cleared-flags j h (ap (λ (q : Pcb). (q.file_descriptor_array j).flags) (sym p) ∙ f)
    | inr e ↦
        let f' : flags_at at j s ≡ 1 = ap (flags_at at j) (sym (close_one-skips e)) ∙ f in
        ground (arith, e, h, f')
  ]

close_from-Kept : (k i at : ℕ) (s : System) → Kept at s (close_from k i at s)
unfolding close_from
close_from-Kept zero i at s = Kept-refl at s
close_from-Kept (suc k) i at s =
    Kept-trans at s (close_one i at s) (close_from k (i + 1) at (close_one i at s))
      (close_one-Kept i at s) (close_from-Kept k (i + 1) at (close_one i at s))

close_from-flags :
    (k i at j : ℕ) (s : System)
    → j < i + k
    → (i ≤ j) ⊎ (flags_at at j s ≢ 1)
    → flags_at at j (close_from k i at s) ≢ 1
unfolding close_from
close_from-flags zero i at j s h (inl low) = absurd (omega (arith, h, low))
close_from-flags zero i at j s h (inr ne) = ne
close_from-flags (suc k) i at j s h first =
    close_from-flags k (i + 1) at j (close_one i at s) (omega (arith, h))
      (elim (Bool-cases (i == j)) [
        | inl e ↦ inr (close_one-flags i at s j (inl ((==_iff i j).0 e)))
        | inr e ↦ elim first [
          | inl low ↦ inl (ground (arith, e, low))
          | inr ne ↦ inr (close_one-flags i at s j (inr ne))
        ]
      ])

-- 4 MiB pages from 8 MiB up.
abbrev frame_of : ℕ → ℕ
frame_of pid = add32 0x800000 ((pid * 0x400000) % 2 ^ 32) / 2 ^ 12 % 2 ^ 20

-- Below 8 MiB, 8 KiB for each process.
abbrev stack_of : ℕ → ℕ
stack_of pid = sub32 (sub32 0x800000 ((pid * 0x2000) % 2 ^ 32)) 4

-- The system after a process has halted, and the call of execute that goes on.
unfoldable pub Halted : ℕ → System → Switch → Type 0
Halted status s (resumes v ebp esp s') =
    (v ≡ (if status == 1 then 256 else 0))
    × (ebp ≡ (cur_pcb s).ebp)
    × (esp ≡ (cur_pcb s).esp)
    × ((i : ℕ) → s'.pid_bitmap i ≡ (if (cur_pcb s).pid == i then 0 else s.pid_bitmap i))
    × ((t : ℕ)
        → t < 3
        → s'.schedule t
          ≡ (if s.schedule t == (cur_pcb s).pid then (cur_pcb s).parent_pid else s.schedule t))
    × (mapped_frame s' ≡ frame_of (cur_pcb s).parent_pid)
    × (s'.tss_esp0 ≡ stack_of (cur_pcb s).parent_pid)
    × ((j : ℕ) → j < 8 → flags_at (get_cur_pcb_ptr s.esp) j s' ≢ 1)
Halted status s (returns v s') = ⊥
Halted status s (enters entry s') = ⊥
Halted status s (continues ebp s') = ⊥
Halted status s fault = ⊥

freed : (f g : ℕ → ℕ) (pid : ℕ) → f ≡ give_pid pid g → (i : ℕ) → f i ≡ (if pid == i then 0 else g i)
freed f g pid e i = ap (λ (b : ℕ → ℕ). b i) e

replaced :
    (f g : ℕ → ℕ) (parent pid : ℕ)
    → f ≡ finish_from 3 0 parent pid g
    → (t : ℕ) → t < 3
    → f t ≡ (if g t == pid then parent else g t)
replaced f g parent pid e t h = ap (λ (b : ℕ → ℕ). b t) e ∙ finish_from_lem t parent pid g h

leave-Halted :
    (status : ℕ) (s s' : System)
    → s'.pcb_at ≡ s.pcb_at
    → s'.esp ≡ s.esp
    → s'.schedule ≡ s.schedule
    → s'.pid_bitmap ≡ give_pid (cur_pcb s).pid s.pid_bitmap
    → Halted status s (leave (if status == 1 then 256 else 0) s')
unfolding leave Halted
leave-Halted status s s' e f g h =
    let at = get_cur_pcb_ptr s'.esp in
    let s1 = close_from 8 0 at s' in
    let kept = close_from-Kept 8 0 at s' in
    let same : cur_pcb s' ≡ cur_pcb s = rw (e, f) refl in
    let own = kept.own ∙ ap (λ (q : Pcb). q.pid) same in
    let parent = kept.parent ∙ ap (λ (q : Pcb). q.parent_pid) same in
    let p = s1.pcb_at at in
    let s2 = record s1 { schedule = finish_from 3 0 p.parent_pid p.pid s1.schedule } in
    let tables = map_user-tables p.parent_pid s2 in
    (
      refl,
      kept.base ∙ ap (λ (q : Pcb). q.ebp) same,
      kept.stack ∙ ap (λ (q : Pcb). q.esp) same,
      freed _ s.pid_bitmap (cur_pcb s).pid (tables.0 ∙ kept.bitmap ∙ h),
      replaced _ s.schedule (cur_pcb s).parent_pid (cur_pcb s).pid
          (tables.1 ∙ rw (own, parent, kept.table, g) refl),
      map_user-frame p.parent_pid s2 ∙ ap (λ x. user_frame x % 2 ^ 20) parent,
      ap execute_esp0 parent,
      λ j small flag. close_from-flags 8 0 at j s' small (inl (omega arith)) (
          ap (λ (q : ℕ → Pcb). ((q at).file_descriptor_array j).flags) (sym tables.2)
          ∙ ap (λ x. flags_at (get_cur_pcb_ptr x) j (map_user p.parent_pid s2)) f
          ∙ flag),
    )

-- halt of a process that is no base shell, whatever the caller's stack and its status: its number is
-- free and no other number changes, a terminal that had it as its process has its parent instead and the
-- other terminals stay, the parent's page and kernel stack are installed, none of
-- its eight descriptors is left in use, and the execute that started it returns 256 if the status is 1 and 0
-- for every other status.
pub halt-Halted :
    (stack : ℕ → ℕ) (header ebp status : ℕ) (s : System)
    → 3 ≤ (cur_pcb s).pid
    → Halted status s (halt stack header ebp status s)
unfolding halt
halt-Halted stack header ebp status s low =
    let no_shell : ((cur_pcb s).pid == 0 || (cur_pcb s).pid == 1 || (cur_pcb s).pid == 2) ≡ false =
      ground (arith, low) in
    rw no_shell (leave-Halted status s _ refl refl refl refl)
