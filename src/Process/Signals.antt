-- ===== src/Process/Signals.antt =====
-- The signals of a process in mp3/student-distrib/system_calls.c: the handlers that execute installs,
-- set_handler, IGNORE, and the masks that KILL, IGNORE and sigreturn clear.
use ece_391_fall.Prelude.{
  ℕ, zero, suc, ◌+◌, ◌<◌, ◌≤◌, ◌≡◌, ◌⊎◌, update-same, refl, ap, ◌∙◌, arith, inl, inr, false, ◌||◌,
  ltb, ◌==◌, if◌then◌else◌, minus_one, slt, update,
}
use ece_391_fall.Process.{
  Handler, kill, ignore, address, Sigaction, Pcb, System, get_cur_pcb_ptr, cur_pcb, set_cur_pcb,
}

abbrev pub signal : System → ℕ → Sigaction
signal s n = (cur_pcb s).signals n

abbrev pub set_signal : ℕ → Sigaction → System → System
set_signal n a s = let p = cur_pcb s in set_cur_pcb (record p { signals = update p.signals n a }) s

-- `signals[n].handler = h`.
abbrev pub store_handler : ℕ → Handler → System → System
store_handler n h s = set_signal n (record (signal s n) { handler = h }) s

-- The default that is set first for a null pointer.
abbrev pub set_default : ℕ → System → System
set_default n s =
    if n == 0 || n == 1 || n == 2
    then store_handler n kill s
    else if n == 3 || n == 4
    then store_handler n ignore s
    else s

pub set_handler : ℕ → ℕ → System → ℕ × System
set_handler signum handler_address s =
    let s' = if handler_address == 0 then set_default signum s else s in
    if slt signum 0 || slt 4 signum
    then (minus_one, s')
    else (0, store_handler signum (address handler_address) s')

-- The loop that clears the masks from signal `i` with `k` left.
pub unmask_from : ℕ → ℕ → (ℕ → Sigaction) → ℕ → Sigaction
unmask_from zero i a = a
unmask_from (suc k) i a = unmask_from k (i + 1) (update a i (record (a i) { mask = 0 }))

pub ignore_signal : System → ℕ × System
ignore_signal s =
    let p = cur_pcb s in (0, set_cur_pcb (record p { signals = unmask_from 5 0 p.signals }) s)

-- The loop of execute that sets the defaults from signal `i` with `k` left.
pub init_signals : ℕ → ℕ → (ℕ → Sigaction) → ℕ → Sigaction
init_signals zero i a = a
init_signals (suc k) i a =
    let h : Handler = if ltb i 3 then kill else ignore in
    init_signals k (i + 1) (update a i (record { flag = 0; mask = 0; handler = h }))

store-signal :
    (n : ℕ) (a : Sigaction) (s : System) (j : ℕ)
    → signal (set_signal n a s) j ≡ update (cur_pcb s).signals n a j
store-signal n a s j =
    let p = cur_pcb s in
    ap (λ (q : Pcb). q.signals j)
      (update-same s.pcb_at (get_cur_pcb_ptr s.esp) (record p { signals = update p.signals n a }))

below_five : (n : ℕ) → n < 5 → (n ≡ 0) ⊎ (n ≡ 1) ⊎ (n ≡ 2) ⊎ (n ≡ 3) ⊎ (n ≡ 4)
below_five n h = ground (arith, h)

unmasked : (a : ℕ → Sigaction) (n : ℕ) → n < 5 → unmask_from 5 0 a n ≡ record (a n) { mask = 0 }
unfolding unmask_from
unmasked a n h = elim (below_five n h) [
  | inl e ↦ rw e refl
  | inr (inl e) ↦ rw e refl
  | inr (inr (inl e)) ↦ rw e refl
  | inr (inr (inr (inl e))) ↦ rw e refl
  | inr (inr (inr (inr e))) ↦ rw e refl
]

signum_bounds : (n : ℕ) → n ≤ 4 → (slt n 0 || slt 4 n) ≡ false
signum_bounds n h = ground arith

-- For a signal from 0 to 4 set_handler returns 0 and stores the address, a null pointer too: the
-- default that it sets for a null pointer is overwritten at once.
pub set_handler_lem :
    (n a : ℕ) (s : System)
    → n ≤ 4
    → ((set_handler n a s).0 ≡ 0) × ((signal (set_handler n a s).1 n).handler ≡ address a)
unfolding set_handler
set_handler_lem n a s h =
    let s' = if a == 0 then set_default n s else s in
    rw (signum_bounds n h, set_handler)
      (
        refl,
        ap (λ (q : Sigaction). q.handler)
            (store-signal n (record (signal s' n) { handler = address a }) s' n
              ∙ update-same (cur_pcb s').signals n (record (signal s' n) { handler = address a })),
      )

-- After IGNORE the five signals are unmasked, with the flags and handlers they had.
pub ignore_signal-unmasks :
    (s : System) (n : ℕ) → n < 5 → signal (ignore_signal s).1 n ≡ record (signal s n) { mask = 0 }
unfolding ignore_signal
ignore_signal-unmasks s n h =
    let p = cur_pcb s in
    ap (λ (q : Pcb). q.signals n)
      (update-same s.pcb_at (get_cur_pcb_ptr s.esp)
        (record p { signals = unmask_from 5 0 p.signals }))
    ∙ unmasked p.signals n h

-- execute gives every process the documented defaults: signals 0, 1 and 2 kill, 3 and 4 are ignored,
-- and none is raised or masked.
pub init_signals_lem :
    (a : ℕ → Sigaction) (n : ℕ)
    → n < 5
    → init_signals 5 0 a n
      ≡ record { flag = 0; mask = 0; handler = if ltb n 3 then kill else ignore }
unfolding init_signals
init_signals_lem a n h = elim (below_five n h) [
  | inl e ↦ rw e refl
  | inr (inl e) ↦ rw e refl
  | inr (inr (inl e)) ↦ rw e refl
  | inr (inr (inr (inl e))) ↦ rw e refl
  | inr (inr (inr (inr e))) ↦ rw e refl
]
