-- ===== src/Process/Switching/Turns.antt =====
-- The turns that pit_handler of mp3/student-distrib/pit.c gives to the processes of the terminals.
use ece_391_fall.Prelude.{
  ℕ, ◌+◌, ◌*◌, ◌%◌, ◌^◌, ◌≤◌, ◌<◌, ◌≡◌, ◌≢◌, refl, ap, ◌∙◌, arith, false, ◌==◌, minus_one, update,
  update-same, update-other,
}
use ece_391_fall.Console.{memory_switch}
use ece_391_fall.Process.{Pcb, System, kernel_bottom_addr, get_pcb_ptr, get_cur_pcb_ptr}
use ece_391_fall.Process.SystemCalls.{run_terminal}
use ece_391_fall.Process.Blocks.{pcb_size, get_cur_pcb_ptr_lem}
use ece_391_fall.Process.Pids.{next_terminal, execute_esp0}
use ece_391_fall.Process.Pids.Schedule.{pit_esp0_lem}
use ece_391_fall.Process.Pages.{user_frame, mapped_frame, map_user, map_user-frame}
use ece_391_fall.Process.Switching.{
  Switch, returns, enters, resumes, continues, fault, switch_to, pit_handler,
}

-- What one interrupt does that takes the processor from process `p`, with its base pointer `ebp`, and gives
-- it to `q`.
record Turned (p q ebp e : ℕ) (s s' : System) : Type 0 where
  resumed : e ≡ (s'.pcb_at (get_pcb_ptr q)).run_ebp
  saved :
      s'.pcb_at
      ≡ update s.pcb_at (get_pcb_ptr p) (record (s.pcb_at (get_pcb_ptr p)) { run_ebp = ebp })
  table : s'.schedule ≡ s.schedule
  turn : run_terminal s' ≡ next_terminal (run_terminal s)
  page : mapped_frame s' ≡ user_frame q % 2 ^ 20
  kernel_stack : s'.tss_esp0 ≡ execute_esp0 q

Ticked : ℕ → ℕ → ℕ → System → Switch → Type 0
Ticked p q ebp s (continues e s') = Turned p q ebp e s s'
Ticked p q ebp s (returns v s') = ⊥
Ticked p q ebp s (enters entry s') = ⊥
Ticked p q ebp s (resumes v base esp s') = ⊥
Ticked p q ebp s fault = ⊥

-- The stack pointers that an entry into the kernel leaves on the stack of process `pid`.
unfoldable pub OnStack : ℕ → ℕ → Type 0
OnStack pid esp = (get_pcb_ptr pid + pcb_size ≤ esp) × (esp + pid * 0x2000 + 4 ≤ kernel_bottom_addr)

no_minus_one : (q : ℕ) → q < 6 → (q == minus_one) ≡ false
no_minus_one q h = ground (arith, h)

module _ (stack : ℕ → ℕ) (header : ℕ) where
  pit_handler-Ticked :
      (p q ebp : ℕ) (s : System)
      → q < 6
      → get_cur_pcb_ptr s.esp ≡ get_pcb_ptr p
      → s.schedule (next_terminal (run_terminal s)) ≡ q
      → Ticked p q ebp s (pit_handler stack header ebp s)
  unfolding pit_handler switch_to map_user memory_switch Ticked
  pit_handler-Ticked p q ebp s hq at e =
      rw (e, no_minus_one q hq, at)
        (record {
          resumed = refl;
          saved = refl;
          table = refl;
          turn = refl;
          page = map_user-frame q s;
          kernel_stack = (pit_esp0_lem q hq).0;
        })

-- An interrupt with the processor at `esp` and `ebp`, in the system as the process before left it.
abbrev pub turn_at : (ℕ → ℕ) → ℕ → ℕ → ℕ → System → Switch
turn_at stack header esp ebp s = pit_handler stack header ebp (record s { esp = esp })

unfoldable pub and_then : Switch → (System → Switch) → Switch
and_then (continues ebp s) f = f s
and_then (returns v s) f = returns v s
and_then (enters entry s) f = enters entry s
and_then (resumes v ebp esp s) f = resumes v ebp esp s
and_then fault f = fault

-- What the programs and system calls of a turn leave alone: the schedule, whose turn it is, and where
-- process `p` was interrupted.
unfoldable pub Leaves : ℕ → (System → System) → Type 0
Leaves p work =
    (s : System)
    → ((work s).schedule ≡ s.schedule)
      × (run_terminal (work s) ≡ run_terminal s)
      × (((work s).pcb_at (get_pcb_ptr p)).run_ebp ≡ (s.pcb_at (get_pcb_ptr p)).run_ebp)

unfoldable pub Back : ℕ → ℕ → Switch → Type 0
Back p ebp (continues e s) =
    (e ≡ ebp) × (mapped_frame s ≡ user_frame p % 2 ^ 20) × (s.tss_esp0 ≡ execute_esp0 p)
Back p ebp (returns v s) = ⊥
Back p ebp (enters entry s) = ⊥
Back p ebp (resumes v base esp s) = ⊥
Back p ebp fault = ⊥

and_then-Back :
    (p q own ebp ebp' : ℕ) (s : System) (x : Switch) (f : System → Switch)
    → Ticked p q ebp s x
    → ((e : ℕ) (s' : System) → Turned p q ebp e s s' → Back own ebp' (f s'))
    → Back own ebp' (and_then x f)
unfolding Ticked and_then
and_then-Back p q own ebp ebp' s (continues e s') f h g = g e s' h
and_then-Back p q own ebp ebp' s (returns _ _) f h g = elim h [ ]
and_then-Back p q own ebp ebp' s (enters _ _) f h g = elim h [ ]
and_then-Back p q own ebp ebp' s (resumes _ _ _ _) f h g = elim h [ ]
and_then-Back p q own ebp ebp' s fault f h g = elim h [ ]

Turned-Back :
    (p q ebp own : ℕ) (s : System) (x : Switch)
    → Ticked p q ebp s x
    → ((e : ℕ) (s' : System) → Turned p q ebp e s s' → e ≡ own)
    → Back q own x
unfolding Ticked Back
Turned-Back p q ebp own s (continues e s') h g = (g e s' h, h.page, h.kernel_stack)
Turned-Back p q ebp own s (returns _ _) h g = elim h [ ]
Turned-Back p q ebp own s (enters _ _) h g = elim h [ ]
Turned-Back p q ebp own s (resumes _ _ _ _) h g = elim h [ ]
Turned-Back p q ebp own s fault h g = elim h [ ]

blocks_differ : (p q : ℕ) → p < 6 → q < 6 → p ≢ q → get_pcb_ptr q ≢ get_pcb_ptr p
unfolding get_pcb_ptr
blocks_differ p q hp hq ne e = ne (omega (arith, e))

-- Where `p` was interrupted, after another process was.
saved-kept :
    (p q r ebp e : ℕ) (s s' : System)
    → p < 6
    → q < 6
    → p ≢ q
    → Turned q r ebp e s s'
    → (s'.pcb_at (get_pcb_ptr p)).run_ebp ≡ (s.pcb_at (get_pcb_ptr p)).run_ebp
saved-kept p q r ebp e s s' hp hq ne h =
    ap (λ (f : ℕ → Pcb). (f (get_pcb_ptr p)).run_ebp) h.saved
    ∙ ap (λ (b : Pcb). b.run_ebp)
        (update-other s.pcb_at (get_pcb_ptr q) (record (s.pcb_at (get_pcb_ptr q)) { run_ebp = ebp })
          (get_pcb_ptr p) (blocks_differ p q hp hq ne))

saved-own :
    (p q ebp e : ℕ) (s s' : System)
    → Turned p q ebp e s s'
    → (s'.pcb_at (get_pcb_ptr p)).run_ebp ≡ ebp
saved-own p q ebp e s s' h =
    ap (λ (f : ℕ → Pcb). (f (get_pcb_ptr p)).run_ebp) h.saved
    ∙ ap (λ (b : Pcb). b.run_ebp)
        (update-same s.pcb_at (get_pcb_ptr p) (record (s.pcb_at (get_pcb_ptr p)) { run_ebp = ebp }))

next_schedule :
    (t q : ℕ) (s s' : System)
    → s'.schedule ≡ s.schedule
    → run_terminal s' ≡ t
    → s.schedule (next_terminal t) ≡ q
    → s'.schedule (next_terminal (run_terminal s')) ≡ q
next_schedule t q s s' e f g = rw (e, f) g

-- With three different processes on the terminals, a process that the timer interrupts has the processor again at
-- the third interrupt from there, at the base pointer where it was, with its own page and kernel
-- stack; in between, the other two may do all that leaves the schedule, the turn and its saved base pointer.
pub pit_handler-Back :
    (stack : ℕ → ℕ) (header p q r : ℕ) (esp0 ebp0 esp1 ebp1 esp2 ebp2 : ℕ)
    (work work' : System → System) (s : System)
    → p < 6
    → q < 6
    → r < 6
    → p ≢ q
    → p ≢ r
    → run_terminal s < 3
    → s.schedule (run_terminal s) ≡ p
    → s.schedule (next_terminal (run_terminal s)) ≡ q
    → s.schedule (next_terminal (next_terminal (run_terminal s))) ≡ r
    → OnStack p esp0
    → OnStack q esp1
    → OnStack r esp2
    → Leaves p work
    → Leaves p work'
    → Back p ebp0 (
        and_then (turn_at stack header esp0 ebp0 s) (λ s1.
          and_then
            (turn_at stack header esp1 ebp1 (work s1))
            (λ s2. turn_at stack header esp2 ebp2 (work' s2))))
unfolding OnStack Leaves
pit_handler-Back stack header p q r esp0 ebp0 esp1 ebp1 esp2 ebp2 work work' s hp hq hr pq pr ht
      on_p on_q on_r st0 st1 st2 same same' =
    let t = run_terminal s in
    let round : s.schedule (next_terminal (next_terminal (next_terminal t))) ≡ p =
      ap s.schedule (omega (arith, ht)) ∙ on_p in
    and_then-Back p q p ebp0 ebp0 (record s { esp = esp0 }) _ _
      (pit_handler-Ticked stack header p q ebp0 (record s { esp = esp0 }) hq
        (get_cur_pcb_ptr_lem p esp0 hp st0.0 st0.1).1 on_q)
      (λ e s1 h1.
        let w = record (work s1) { esp = esp1 } in
        let at1 = (same s1).1 ∙ h1.turn in
        let table1 = (same s1).0 ∙ h1.table in
        and_then-Back q r p ebp1 ebp0 w _ _
          (pit_handler-Ticked stack header q r ebp1 w hr
            (get_cur_pcb_ptr_lem q esp1 hq st1.0 st1.1).1
            (next_schedule (next_terminal t) r s w table1 at1 on_r))
          (λ e' s2 h2.
            let w' = record (work' s2) { esp = esp2 } in
            Turned-Back r p ebp2 ebp0 w' _
              (pit_handler-Ticked stack header r p ebp2 w' hp
                (get_cur_pcb_ptr_lem r esp2 hr st2.0 st2.1).1
                (next_schedule (next_terminal (next_terminal t)) p s w'
                  ((same' s2).0 ∙ h2.table ∙ table1) ((same' s2).1 ∙ h2.turn ∙ ap next_terminal at1)
                  round))
              (λ e'' s3 h3.
                h3.resumed
                ∙ saved-kept p r p ebp2 e'' w' s3 hp hr pr h3
                ∙ (same' s2).2
                ∙ saved-kept p q r ebp1 e' w s2 hp hq pq h2
                ∙ (same s1).2
                ∙ saved-own p q ebp0 e (record s { esp = esp0 }) s1 h1)))
