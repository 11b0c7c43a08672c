-- ===== src/Process/Tree/Invariant.antt =====
-- The invariant of the processes of the three terminals.
use ece_391_fall.Prelude.{
  ℕ, ◌≤◌, ◌<◌, ◌≡◌, ◌≢◌, subst, refl, sym, ap, arith, Bool-cases, inl, inr, false, some, ◌==◌, ◌||◌,
  ltb, ==_iff, true, update, update-same, fun_ext,
}
use ece_391_fall.Process.Pids.{give_pid, parent_of, start_from, finish_from}
use ece_391_fall.Process.Pids.Allocation.{Taken, take_pid-Taken}
use ece_391_fall.Process.Pids.Schedule.{
  start_from-at, start_from-none, finish_from-hit, finish_from-miss, finish_from-above,
}
use ece_391_fall.Process.Tree.{
  Processes, booted, started, restarted, Step, execute, halt, restart, Reach, boot, step,
}

-- A process that is no base shell and lives.
abbrev IsChild : Processes → ℕ → Type 0
IsChild s p = (3 ≤ p) × (p < 6) × (s.bitmap p ≢ 0)

pub record Inv (s : Processes) : Type 0 where
  shells : (p : ℕ) → p < 3 → s.bitmap p ≢ 0
  pub small : (t : ℕ) → t < 3 → s.schedule t < 6
  pub live : (t : ℕ) → t < 3 → s.bitmap (s.schedule t) ≢ 0
  pub distinct : (t u : ℕ) → t < u → u < 3 → s.schedule t ≢ s.schedule u
  parent_live : (p : ℕ) → IsChild s p → s.bitmap (s.parent p) ≢ 0
  parent_small : (p : ℕ) → IsChild s p → s.parent p < 6
  parent_waits : (p t : ℕ) → IsChild s p → t < 3 → s.schedule t ≢ s.parent p
  one_child : (p q : ℕ) → IsChild s p → IsChild s q → p ≢ q → s.parent p ≢ s.parent q

Inv-booted : Inv booted
Inv-booted = record {
  shells = λ p h. ground (arith, h);
  small = λ t h. omega (arith, h);
  live = λ t h. ground (arith, h);
  distinct = λ t u h h'. omega (arith, h);
  parent_live = λ p h. ground (arith, h.0, h.2);
  parent_small = λ p h. ground (arith, h.0, h.2);
  parent_waits = λ p t h. ground (arith, h.0, h.2);
  one_child = λ p q h h'. ground (arith, h.0, h.2);
}

-- Two different terminals run different processes.
Inv-apart :
    (s : Processes) → Inv s → (t u : ℕ) → t < 3 → u < 3 → t ≢ u → s.schedule t ≢ s.schedule u
Inv-apart s inv t u ht hu ne e = ground (arith, inv.distinct t u, inv.distinct u t, ht, hu, ne, e)

module _ (s : Processes) (inv : Inv s) (t : ℕ) (ht : t < 3) where
  no_shell : (pid : ℕ) → 3 ≤ pid → (pid == 0 || pid == 1 || pid == 2) ≡ false
  no_shell pid low = ground (arith, low)

  fresh : (pid q : ℕ) → s.bitmap pid ≡ 0 → s.bitmap q ≢ 0 → pid ≢ q
  fresh pid q new h e = h (subst (λ x. s.bitmap x ≡ 0) e new)

  old-IsChild :
      (pid p : ℕ)
      → (3 ≤ p) × (p < 6) × (update s.bitmap pid 1 p ≢ 0)
      → (pid == p) ≡ false
      → IsChild s p
  old-IsChild pid p h e = (h.0, h.1, ground (arith, e, h.2))

  -- A new process in the place of its parent.
  Inv-update :
      (pid : ℕ)
      → 3 ≤ pid
      → pid < 6
      → s.bitmap pid ≡ 0
      → Inv (record {
        bitmap = update s.bitmap pid 1;
        schedule = update s.schedule t pid;
        parent = update s.parent pid (s.schedule t);
      })
  Inv-update pid low high new = record {
    shells = λ p h. ground (arith, inv.shells p h);
    small = λ u h. ground (arith, inv.small u h, high);
    live = λ u h. ground (arith, inv.live u h);
    distinct = λ u v h h'. ground (
      arith,
      inv.distinct u v h h',
      fresh pid (s.schedule u) new (inv.live u (omega (arith, h, h'))),
      fresh pid (s.schedule v) new (inv.live v h'),
    );
    parent_live = λ p h. elim (Bool-cases (pid == p)) [
      | inl e ↦ ground (arith, e, inv.live t ht)
      | inr e ↦ ground (arith, e, inv.parent_live p (old-IsChild pid p h e))
    ];
    parent_small = λ p h. ground (arith, inv.parent_small p, h, inv.small t ht);
    parent_waits = λ p u h h'. elim (Bool-cases (pid == p)) [
      | inl e ↦
          ground (arith, e, fresh pid (s.schedule t) new (inv.live t ht), Inv-apart s inv u t h' ht)
      | inr e ↦
          let child = old-IsChild pid p h e in
          ground (
            arith,
            e,
            fresh pid (s.parent p) new (inv.parent_live p child),
            inv.parent_waits p u child h',
          )
    ];
    one_child = λ p q h h' ne. elim (Bool-cases (pid == p)) [
      | inl e ↦
          let other : (pid == q) ≡ false = ground (arith, e, ne) in
          ground (arith, e, other, inv.parent_waits q t (old-IsChild pid q h' other) ht)
      | inr e ↦ elim (Bool-cases (pid == q)) [
        | inl f ↦ ground (arith, e, f, inv.parent_waits p t (old-IsChild pid p h e) ht)
        | inr f ↦
            ground
              (arith, e, f, inv.one_child p q (old-IsChild pid p h e) (old-IsChild pid q h' f) ne)
      ]
    ];
  }

  left-IsChild :
      (pid p : ℕ) → (3 ≤ p) × (p < 6) × (update s.bitmap pid 0 p ≢ 0) → IsChild s p × (p ≢ pid)
  left-IsChild pid p h = ((h.0, h.1, ground (arith, h.2)), ground (arith, h.2))

  -- A process gone, and its parent in its place.
  Inv-remove :
      3 ≤ s.schedule t
      → Inv (record s {
        bitmap = update s.bitmap (s.schedule t) 0;
        schedule = update s.schedule t (s.parent (s.schedule t));
      })
  Inv-remove low =
      let pid = s.schedule t in
      let child : IsChild s pid = (low, inv.small t ht, inv.live t ht) in
      record {
        shells = λ p h. ground (arith, inv.shells p h, low);
        small = λ u h. ground (arith, inv.small u h, inv.parent_small pid child);
        live = λ u h. ground (
          arith,
          inv.live u h,
          inv.parent_live pid child,
          inv.parent_waits pid t child ht,
          Inv-apart s inv u t h ht,
        );
        distinct = λ u v h h'. ground (
          arith,
          inv.distinct u v h h',
          inv.parent_waits pid u child (omega (arith, h, h')),
          inv.parent_waits pid v child h',
        );
        parent_live = λ p h.
            let (old, ne) = left-IsChild pid p h in
            ground (arith, inv.parent_live p old, inv.parent_waits p t old ht);
        parent_small = λ p h. ground (arith, inv.parent_small p, h);
        parent_waits = λ p u h h'.
            let (old, ne) = left-IsChild pid p h in
            ground
              (arith, inv.parent_waits p u old h', inv.one_child pid p child old (λ e. ne (sym e)));
        one_child = λ p q h h' ne. ground (arith, inv.one_child p q, h, h', ne);
      }

  execute-update :
      (pid : ℕ)
      → 3 ≤ pid
      → start_from 3 0 (parent_of pid (s.schedule t)) pid s.schedule ≡ update s.schedule t pid
  unfolding parent_of
  execute-update pid low =
      rw (no_shell pid low, parent_of)
        (start_from-at 3 0 t (s.schedule t) pid s.schedule (omega arith) (omega (arith, ht)) refl
          (λ j h. (omega (arith, inv.small j (omega (arith, h, ht))), inv.distinct j t h ht)))

  halt-update :
      3 ≤ s.schedule t
      → finish_from 3 0 (s.parent (s.schedule t)) (s.schedule t) s.schedule
        ≡ update s.schedule t (s.parent (s.schedule t))
  halt-update low = fun_ext (λ u. elim (Bool-cases (t == u)) [
    | inl e ↦
        let same = (==_iff t u).0 e in
        rw e (
          finish_from-hit 3 0 u (s.parent (s.schedule t)) (s.schedule t) s.schedule (omega arith)
            (omega (arith, same, ht)) (ap s.schedule (sym same)))
    | inr e ↦ rw e (elim (Bool-cases (ltb u 3)) [
      | inl f ↦
          finish_from-miss 3 0 u (s.parent (s.schedule t)) (s.schedule t) s.schedule
            (Inv-apart s inv u t (ground (arith, f)) ht (ground (arith, e)))
      | inr f ↦
          finish_from-above 3 0 u (s.parent (s.schedule t)) (s.schedule t) s.schedule
            (ground (arith, f))
    ])
  ])

execute-Inv :
    (s : Processes) (t pid : ℕ) (bitmap : ℕ → ℕ)
    → Inv s
    → t < 3
    → Taken s.bitmap (some pid, bitmap)
    → Inv (started t pid bitmap s)
unfolding parent_of
execute-Inv s t pid bitmap inv ht (high, new, first, after) =
    let low : 3 ≤ pid = ground (arith, inv.shells pid, new) in
    let marked : bitmap ≡ update s.bitmap pid 1 = fun_ext after in
    let moved = execute-update s inv t ht pid low in
    let own : parent_of pid (s.schedule t) ≡ s.schedule t =
      rw (no_shell s inv t ht pid low, parent_of) refl in
    rw (moved, own, marked) (Inv-update s inv t ht pid low high new)

-- What is recorded of a base shell's parent has no effect, nor which mark a taken number has.
Inv-same :
    (s : Processes) (bitmap parent : ℕ → ℕ)
    → Inv s
    → ((p : ℕ) → s.bitmap p ≢ 0 → bitmap p ≢ 0)
    → ((p : ℕ) → bitmap p ≢ 0 → s.bitmap p ≢ 0)
    → ((p : ℕ) → 3 ≤ p → parent p ≡ s.parent p)
    → Inv (record s { bitmap = bitmap; parent = parent })
Inv-same s bitmap parent inv to back same = record {
  shells = λ p h. to p (inv.shells p h);
  small = inv.small;
  live = λ t h. to _ (inv.live t h);
  distinct = inv.distinct;
  parent_live = λ p h. rw (same p h.0) (to _ (inv.parent_live p (h.0, h.1, back p h.2)));
  parent_small = λ p h. rw (same p h.0) (inv.parent_small p (h.0, h.1, back p h.2));
  parent_waits = λ p t h h'. rw (same p h.0) (inv.parent_waits p t (h.0, h.1, back p h.2) h');
  one_child = λ p q h h' ne.
      rw (same p h.0, same q h'.0)
        (inv.one_child p q (h.0, h.1, back p h.2) (h'.0, h'.1, back q h'.2) ne);
}

-- The number that a base shell gives back is the one it takes again.
shell_again :
    (s : Processes) (shell pid : ℕ) (bitmap : ℕ → ℕ)
    → Inv s
    → shell < 3
    → Taken (give_pid shell s.bitmap) (some pid, bitmap)
    → pid ≡ shell
shell_again s shell pid bitmap inv low (high, new, first, after) =
    elim (Bool-cases (pid == shell)) [
      | inl e ↦ (==_iff pid shell).0 e
      | inr e ↦
          let below : ¬ (shell < pid) = λ h. first shell h (update-same s.bitmap shell 0) in
          absurd (ground (arith, e, new, below, inv.shells pid, low))
    ]

restart-Inv :
    (s : Processes) (t pid : ℕ) (bitmap : ℕ → ℕ)
    → Inv s
    → t < 3
    → s.schedule t < 3
    → Taken (give_pid (s.schedule t) s.bitmap) (some pid, bitmap)
    → Inv (restarted t pid bitmap s)
unfolding parent_of
restart-Inv s t pid bitmap inv ht low taken =
    let shell : ℕ = s.schedule t in
    let same = shell_again s shell pid bitmap inv low taken in
    let marked : bitmap ≡ update (give_pid shell s.bitmap) pid 1 = fun_ext taken.3 in
    let base : (pid == 0 || pid == 1 || pid == 2) ≡ true = ground (arith, same, low) in
    let orphan : parent_of pid shell ≡ 255 = rw (base, parent_of) refl in
    let kept =
      start_from-none 3 0 255 pid s.schedule
        (λ j h. (omega (arith, inv.small j h), omega (arith, inv.small j h))) in
    rw (orphan, kept, marked)
      (Inv-same s (update (give_pid shell s.bitmap) pid 1) (update s.parent pid 255) inv
        (λ p h. ground (arith, same, h)) (λ p h. ground (arith, same, h, inv.live t ht))
        (λ p h. ground (arith, same, low, h)))

-- Each step keeps the invariant.
Step-Inv : {s s' : Processes} → Step s s' → Inv s → Inv s'
Step-Inv {s} (execute t pid bitmap ht took) inv =
    execute-Inv s t pid bitmap inv ht (subst (Taken s.bitmap) took (take_pid-Taken s.bitmap))
Step-Inv {s} (restart t pid bitmap ht low took) inv = restart-Inv s t pid bitmap inv ht low (
    subst (Taken (give_pid (s.schedule t) s.bitmap)) took
      (take_pid-Taken (give_pid (s.schedule t) s.bitmap)))
Step-Inv {s} (halt t ht low) inv = rw (halt-update s inv t ht low) (Inv-remove s inv t ht low)

Reach-Inv : {s : Processes} → Reach s → Inv s
Reach-Inv boot = Inv-booted
Reach-Inv (step r st) = Step-Inv st (Reach-Inv r)

-- Whatever programs the three terminals execute and whichever of their processes halt, in any order, base shells
-- included, which are then executed again: the process of each terminal, the third included, is one of the six and its number is taken,
-- and no two terminals have the same process.
pub Reach-scheduled :
    {s : Processes}
    → Reach s
    → ((t : ℕ) → t < 3 → (s.schedule t < 6) × (s.bitmap (s.schedule t) ≢ 0))
      × ((t u : ℕ) → t < 3 → u < 3 → t ≢ u → s.schedule t ≢ s.schedule u)
Reach-scheduled {s} r =
    let inv = Reach-Inv r in (λ t h. (inv.small t h, inv.live t h), Inv-apart s inv)
