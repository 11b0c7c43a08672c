-- ===== src/Process/Tree.antt =====
-- The processes of the three terminals over time. Any terminal's process may execute a program or
-- halt, in any order, and a base shell that halts is executed again; each step changes the bitmap and the
-- schedule as execute and halt do. That the shell cannot be executed again, for want of its file, is
-- no step.
pub mod Invariant
use ece_391_fall.Prelude.{
  ℕ, zero, suc, ◌+◌, ◌-◌, ◌*◌, ◌%◌, ◌^◌, ◌≤◌, ◌<◌, ◌≡◌, ◌≢◌, ◌⊎◌, subst, refl, sym, ap, ◌∙◌, arith,
  Bool, Bool-cases, inl, inr, true, false, Option, none, some, ◌==◌, ◌||◌, ltb, ==_iff,
  if◌then◌else◌, minus_one, update, update-same, update-other, fun_ext,
}
use ece_391_fall.Process.Pids.{take_pid, give_pid, parent_of, start_from, finish_from}
use ece_391_fall.Process.Pids.Allocation.{Taken, take_pid-Taken}
use ece_391_fall.Process.Pids.Schedule.{
  start_from-at, finish_from-hit, finish_from-miss, finish_from-above,
}

pub record Processes : Type 0 where
  pub bitmap : ℕ → ℕ
  pub schedule : ℕ → ℕ
  pub parent : ℕ → ℕ

-- The three shells, each on its terminal.
abbrev pub booted : Processes
booted = record {
  bitmap = λ i. if i == 0 then 1 else if i == 1 then 1 else if i == 2 then 1 else 0;
  schedule = λ t. t;
  parent = λ i. 255;
}

abbrev pub started : ℕ → ℕ → (ℕ → ℕ) → Processes → Processes
started t pid bitmap s = record {
  bitmap = bitmap;
  schedule = start_from 3 0 (parent_of pid (s.schedule t)) pid s.schedule;
  parent = update s.parent pid (parent_of pid (s.schedule t));
}

abbrev pub halted : ℕ → Processes → Processes
halted t s =
    let pid = s.schedule t in
    record s {
      bitmap = give_pid pid s.bitmap;
      schedule = finish_from 3 0 (s.parent pid) pid s.schedule;
    }

-- A base shell gives its number back and is executed again: a number is taken, and the loop over the
-- schedule runs.
abbrev pub restarted : ℕ → ℕ → (ℕ → ℕ) → Processes → Processes
restarted t pid bitmap s =
    started t pid bitmap (record s { bitmap = give_pid (s.schedule t) s.bitmap })

pub data Step (s : Processes) : Processes → Type 0 where
  execute :
      (t pid : ℕ) (bitmap : ℕ → ℕ)
      → t < 3
      → take_pid s.bitmap ≡ (some pid, bitmap)
      → Step s (started t pid bitmap s)
  halt : (t : ℕ) → t < 3 → 3 ≤ s.schedule t → Step s (halted t s)
  restart :
      (t pid : ℕ) (bitmap : ℕ → ℕ)
      → t < 3
      → s.schedule t < 3
      → take_pid (give_pid (s.schedule t) s.bitmap) ≡ (some pid, bitmap)
      → Step s (restarted t pid bitmap s)

pub data Reach : Processes → Type 0 where
  boot : Reach booted
  step : {s s' : Processes} → Reach s → Step s s' → Reach s'
