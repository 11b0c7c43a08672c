-- ===== src/Process/Pids/Schedule.antt =====
-- The schedule over the life of a process, and the kernel stack it is given.
use ece_391_fall.Prelude.{
  ℕ, zero, suc, ◌+◌, ◌-◌, ◌<◌, ◌≤◌, ◌≡◌, ◌≢◌, subst, sym, ◌∙◌, ==_iff, update-same, update-other,
  refl, arith, Bool-cases, inl, inr, true, false, ◌||◌, ◌==◌, minus_one, update, if◌then◌else◌,
}
use ece_391_fall.Process.{get_pcb_ptr}
use ece_391_fall.Process.Pids.{start_from, finish_from, execute_esp0, pit_esp0}

none_left : (i t : ℕ) → i ≤ t → ¬ (t < i + zero)
none_left i t low high = omega arith

own_parent : (p : ℕ) → (p == minus_one || p == p) ≡ true
own_parent p = ground arith

skipped : (a p : ℕ) → (a ≢ minus_one) × (a ≢ p) → (a == minus_one || a == p) ≡ false
skipped a p h = ground (arith, h.0, h.1)

pub start_from-at :
    (k i t : ℕ) (parent pid : ℕ) (schedule : ℕ → ℕ)
    → i ≤ t
    → t < i + k
    → schedule t ≡ parent
    → ((j : ℕ) → j < t → (schedule j ≢ minus_one) × (schedule j ≢ parent))
    → start_from k i parent pid schedule ≡ update schedule t pid
unfolding start_from
start_from-at zero i t parent pid schedule low high at before = elim (none_left i t low high) [ ]
start_from-at (suc k) i t parent pid schedule low high at before = elim (Bool-cases (i == t)) [
  | inl e ↦ let same = (==_iff i t).0 e in rw (same, at, own_parent parent, start_from) refl
  | inr e ↦
      rw (skipped (schedule i) parent (before i (ground (arith, e, low))), start_from)
        (start_from-at k (i + 1) t parent pid schedule (ground (arith, e, low)) (omega arith) at
          before)
]

pub start_from-none :
    (k i parent pid : ℕ) (schedule : ℕ → ℕ)
    → ((j : ℕ) → j < i + k → (schedule j ≢ minus_one) × (schedule j ≢ parent))
    → start_from k i parent pid schedule ≡ schedule
unfolding start_from
start_from-none zero i parent pid schedule full = refl
start_from-none (suc k) i parent pid schedule full =
    rw (skipped (schedule i) parent (full i (omega arith)), start_from)
      (start_from-none k (i + 1) parent pid schedule (λ j h. full j (omega (arith, h))))

finish_from-outside :
    (k i j parent pid : ℕ) (schedule : ℕ → ℕ)
    → j < i
    → finish_from k i parent pid schedule j ≡ schedule j
unfolding finish_from
finish_from-outside zero i j parent pid schedule h = refl
finish_from-outside (suc k) i j parent pid schedule h = elim (Bool-cases (schedule i == pid)) [
  | inl e ↦
      rw (e, finish_from)
        (finish_from-outside k (i + 1) j parent pid (update schedule i parent) (omega arith)
          ∙ update-other schedule i parent j (omega (arith, h)))
  | inr e ↦ rw (e, finish_from) (finish_from-outside k (i + 1) j parent pid schedule (omega arith))
]

pub finish_from-hit :
    (k i j parent pid : ℕ) (schedule : ℕ → ℕ)
    → i ≤ j
    → j < i + k
    → schedule j ≡ pid
    → finish_from k i parent pid schedule j ≡ parent
unfolding finish_from
finish_from-hit zero i j parent pid schedule low high at = elim (none_left i j low high) [ ]
finish_from-hit (suc k) i j parent pid schedule low high at = elim (Bool-cases (i == j)) [
  | inl f ↦
      let same = (==_iff i j).0 f in
      rw (same, at, (==_iff pid pid).1 refl, finish_from)
        (finish_from-outside k (j + 1) j parent pid (update schedule j parent) (omega arith)
          ∙ update-same schedule j parent)
  | inr f ↦ elim (Bool-cases (schedule i == pid)) [
    | inl e ↦
        rw (e, finish_from)
          (finish_from-hit k (i + 1) j parent pid (update schedule i parent)
            (ground (arith, f, low)) (omega arith)
            (update-other schedule i parent j (ground (arith, f)) ∙ at))
    | inr e ↦
        rw (e, finish_from)
          (finish_from-hit k (i + 1) j parent pid schedule (ground (arith, f, low)) (omega arith)
            at)
  ]
]

pub finish_from-miss :
    (k i j parent pid : ℕ) (schedule : ℕ → ℕ)
    → schedule j ≢ pid
    → finish_from k i parent pid schedule j ≡ schedule j
unfolding finish_from
finish_from-miss zero i j parent pid schedule h = refl
finish_from-miss (suc k) i j parent pid schedule h = elim (Bool-cases (schedule i == pid)) [
  | inl e ↦ elim (Bool-cases (i == j)) [
    | inl f ↦
        elim (h
          (subst (λ x. schedule x ≡ pid) ((==_iff i j).0 f) ((==_iff (schedule i) pid).0 e))) [ ]
    | inr f ↦
        let other = update-other schedule i parent j (ground (arith, f)) in
        rw (e, finish_from)
          (finish_from-miss k (i + 1) j parent pid (update schedule i parent)
              (λ q. h (sym other ∙ q))
            ∙ other)
  ]
  | inr e ↦ rw (e, finish_from) (finish_from-miss k (i + 1) j parent pid schedule h)
]

pub finish_from-above :
    (k i j parent pid : ℕ) (schedule : ℕ → ℕ)
    → i + k ≤ j
    → finish_from k i parent pid schedule j ≡ schedule j
unfolding finish_from
finish_from-above zero i j parent pid schedule h = refl
finish_from-above (suc k) i j parent pid schedule h = elim (Bool-cases (schedule i == pid)) [
  | inl e ↦
      rw (e, finish_from)
        (finish_from-above k (i + 1) j parent pid (update schedule i parent) (omega (arith, h))
          ∙ update-other schedule i parent j (omega (arith, h)))
  | inr e ↦
      rw (e, finish_from) (finish_from-above k (i + 1) j parent pid schedule (omega (arith, h)))
]

-- Each terminal of the process that halts has the parent instead, and the others stay.
pub finish_from_lem :
    (j parent pid : ℕ) (schedule : ℕ → ℕ)
    → j < 3
    → finish_from 3 0 parent pid schedule j ≡ (if schedule j == pid then parent else schedule j)
finish_from_lem j parent pid schedule h = elim (Bool-cases (schedule j == pid)) [
  | inl e ↦ rw e (
      finish_from-hit 3 0 j parent pid schedule (omega arith) (omega (arith, h))
        ((==_iff (schedule j) pid).0 e))
  | inr e ↦ rw e (finish_from-miss 3 0 j parent pid schedule (ground (arith, e)))
]

-- A process takes its parent's place in the schedule and halt gives it back: the schedule after both is
-- the one before, if the first terminal that is idle or runs the parent runs the parent, and
-- the process is not scheduled yet.
pub start-finish :
    (schedule : ℕ → ℕ) (parent pid t : ℕ)
    → t < 3
    → schedule t ≡ parent
    → ((i : ℕ) → i < t → (schedule i ≢ minus_one) × (schedule i ≢ parent))
    → ((i : ℕ) → schedule i ≢ pid)
    → (i : ℕ) → finish_from 3 0 parent pid (start_from 3 0 parent pid schedule) i ≡ schedule i
start-finish schedule parent pid t h at before fresh i =
    let started = start_from-at 3 0 t parent pid schedule (omega arith) (omega arith) at before in
    rw started (elim (Bool-cases (t == i)) [
      | inl e ↦
          let same = (==_iff t i).0 e in
          finish_from-hit 3 0 i parent pid (update schedule t pid) (omega arith)
            (omega (arith, same))
            (subst (λ x. update schedule t pid x ≡ pid) same (update-same schedule t pid))
          ∙ sym (subst (λ x. schedule x ≡ parent) same at)
      | inr e ↦
          let other = update-other schedule t pid i (ground (arith, e)) in
          finish_from-miss 3 0 i parent pid (update schedule t pid) (λ q. fresh i (sym other ∙ q))
          ∙ other
    ])

-- execute and pit_handler agree on the kernel stack of each process, and it is inside the process's block.
pub pit_esp0_lem :
    (pid : ℕ)
    → pid < 6
    → (pit_esp0 pid ≡ execute_esp0 pid) × (pit_esp0 pid ≡ get_pcb_ptr pid + 0x2000 - 4)
unfolding pit_esp0 get_pcb_ptr
pit_esp0_lem pid h = (omega arith, omega arith)
