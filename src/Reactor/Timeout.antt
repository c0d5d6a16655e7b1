-- ===== src/Reactor/Timeout.antt =====
-- The loop that should close idle connections.
use notes_coding.Base.{
  ℕ, zero, suc, ◌+◌, ◌<◌, ◌≡◌, ◌≢◌, refl, ap, ◌∙◌, inl, inr, true, false, some, [], ◌∷◌, ◌++◌,
  arith, leb, ◌==◌, Bool-cases, if◌then◌else◌, get_elem?, set, get_elem?-set_ne, Option-cases,
  get_elem?-set_self,
}
use notes_coding.Reactor.{
  Event, Reactor, close, ctl_del, max_events, del_event, restart, check_slot, check_slots,
}

restart_below : (pos : ℕ) → pos < max_events → restart pos ≡ pos
unfolding restart
restart_below pos h = ground arith

check_slots_step :
    (n now pos : ℕ) (r : Reactor)
    → pos < max_events
    → check_slots (suc n) now pos r ≡ check_slots n now pos (check_slot now pos r)
unfolding check_slots
check_slots_step n now pos r h =
    ap (λ p. check_slots n now p (check_slot now p r)) (restart_below pos h)

check_slot-others :
    (now pos : ℕ) (r : Reactor) (j : ℕ)
    → pos ≢ j
    → get_elem? (check_slot now pos r).g_events j ≡ get_elem? r.g_events j
unfolding check_slot del_event
check_slot-others now pos r j ne = elim (Option-cases (get_elem? r.g_events pos)) [
  | inl e ↦ rw (e, check_slot)
  | inr (ev, e) ↦
      rw (e, check_slot)
        (ground (arith, get_elem?-set_ne r.g_events pos j (record ev { status = 0 }) ne))
]

-- However many rounds the loop makes, from a position below 1024 it never leaves this position, and
-- no other slot is changed: a connection elsewhere stays open however long it is idle.
pub check_slots-stuck :
    (n now pos : ℕ) (r : Reactor)
    → pos < max_events
    → ((check_slots n now pos r).0 ≡ pos)
      × ((j : ℕ)
          → pos ≢ j
          → get_elem? (check_slots n now pos r).1.g_events j ≡ get_elem? r.g_events j)
unfolding check_slots
check_slots-stuck zero now pos r h = (refl, λ j ne. refl)
check_slots-stuck (suc n) now pos r h =
    let (q, rest) = check_slots-stuck n now pos (check_slot now pos r) h in
    (
      ap (λ q. q.0) (check_slots_step n now pos r h) ∙ q,
      λ j ne.
          ap (λ q. get_elem? q.1.g_events j) (check_slots_step n now pos r h)
          ∙ rest j ne
          ∙ check_slot-others now pos r j ne,
    )

-- The state when a connection has been closed for silence.
abbrev pub timed_out : ℕ → Event → Reactor → Reactor
timed_out pos ev r = record {
  g_events = set r.g_events pos (record ev { status = 0 });
  calls = (r.calls ++ close ev.fd ∷ []) ++ ctl_del ev.fd ∷ [];
}

check_slot_off :
    (now pos : ℕ) (r : Reactor) (ev : Event)
    → get_elem? r.g_events pos ≡ some ev
    → (ev.status == 1) ≡ false
    → check_slot now pos r ≡ r
unfolding check_slot
check_slot_off now pos r ev at off = rw (at, check_slot, off)

check_slots_off :
    (n now pos : ℕ) (r : Reactor) (ev : Event)
    → pos < max_events
    → get_elem? r.g_events pos ≡ some ev
    → (ev.status == 1) ≡ false
    → (check_slots n now pos r).1 ≡ r
unfolding check_slots
check_slots_off zero now pos r ev h at off = refl
check_slots_off (suc n) now pos r ev h at off =
    ap (λ q. q.1) (check_slots_step n now pos r h)
    ∙ ap (λ r. (check_slots n now pos r).1) (check_slot_off now pos r ev at off)
    ∙ check_slots_off n now pos r ev h at off

check_slot_active :
    (now pos : ℕ) (r : Reactor) (ev : Event)
    → get_elem? r.g_events pos ≡ some ev
    → leb (ev.last_active + 60) now ≡ false
    → check_slot now pos r ≡ r
unfolding check_slot
check_slot_active now pos r ev at active = elim (Bool-cases (ev.status == 1)) [
  | inl on ↦ rw (at, check_slot, on, active) refl
  | inr off ↦ check_slot_off now pos r ev at off
]

check_slot_idle :
    (now pos : ℕ) (r : Reactor) (ev : Event)
    → get_elem? r.g_events pos ≡ some ev
    → ev.status ≡ 1
    → leb (ev.last_active + 60) now ≡ true
    → check_slot now pos r ≡ timed_out pos ev r
unfolding check_slot del_event
check_slot_idle now pos r ev at on idle =
    let watched : (ev.status == 1) ≡ true = ground arith in rw (at, watched, check_slot, idle) refl

check_slots_active :
    (n now pos : ℕ) (r : Reactor) (ev : Event)
    → pos < max_events
    → get_elem? r.g_events pos ≡ some ev
    → leb (ev.last_active + 60) now ≡ false
    → (check_slots n now pos r).1 ≡ r
unfolding check_slots
check_slots_active zero now pos r ev h at active = refl
check_slots_active (suc n) now pos r ev h at active =
    ap (λ q. q.1) (check_slots_step n now pos r h)
    ∙ ap (λ r. (check_slots n now pos r).1) (check_slot_active now pos r ev at active)
    ∙ check_slots_active n now pos r ev h at active

-- At its one position the loop closes the descriptor of a watched event, frees the slot and tells
-- the kernel to forget it, once 60 seconds have passed since it was last active, and it does so
-- once, however many rounds follow; before that it leaves everything as it is.
pub check_slots-idle :
    (n now pos : ℕ) (r : Reactor) (ev : Event)
    → pos < max_events
    → get_elem? r.g_events pos ≡ some ev
    → ev.status ≡ 1
    → (check_slots (suc n) now pos r).1
      ≡ (if leb (ev.last_active + 60) now then timed_out pos ev r else r)
check_slots-idle n now pos r ev h at on = elim (Bool-cases (leb (ev.last_active + 60) now)) [
  | inl idle ↦ rw idle (
      ap (λ q. q.1) (check_slots_step n now pos r h)
      ∙ ap (λ r. (check_slots n now pos r).1) (check_slot_idle now pos r ev at on idle)
      ∙ check_slots_off n now pos (timed_out pos ev r) (record ev { status = 0 }) h
          (get_elem?-set_self r.g_events pos ev _ at) refl)
  | inr active ↦ rw active (check_slots_active (suc n) now pos r ev h at active)
]
