-- ===== src/Reactor/Slots.antt =====
-- Where a new connection goes.
use notes_coding.Base.{
  ℕ, zero, suc, ◌+◌, ◌<◌, ◌≡◌, ◌≢◌, refl, ap, ◌∙◌, Bool, true, false, none, some, List, [], ◌∷◌,
  ◌++◌, arith, ◌==◌, get_elem?, All, take, get_elem?-set_ne, get_elem?-set_self, set-set,
}
use notes_coding.Reactor.{
  Event, Reactor, ctl_add, recv_data, epollin, max_events, find_free, set_event, add_event, accept,
}

-- `i` is the first slot that is not in use.
pub record IsFirstFree (evs : List Event) (i : ℕ) : Type 0 where
  pub event : Event
  pub at : get_elem? evs i ≡ some event
  pub free : event.status ≡ 0
  pub used : All (λ ev. ev.status ≢ 0) (take i evs)

find_free-none :
    (n k : ℕ) (evs : List Event) → All (λ ev. ev.status ≢ 0) (take n evs) → find_free n k evs ≡ none
unfolding find_free
find_free-none zero k evs a = refl
find_free-none (suc n) k [] a = refl
find_free-none (suc n) k (ev ∷ evs) a =
    let busy : (ev.status == 0) ≡ false = ground arith in rw busy (find_free-none n (k + 1) evs a.1)

-- When all the slots are in use, `AcceptConnection` does nothing: the new descriptor is neither
-- watched nor closed.
pub accept_full :
    (conn_fd : ℕ) (nonblocking : Bool) (now : ℕ) (r : Reactor)
    → All (λ ev. ev.status ≢ 0) (take max_events r.g_events)
    → accept (some conn_fd) nonblocking now r ≡ r
unfolding accept
accept_full conn_fd nonblocking now r a = rw (find_free-none max_events 0 r.g_events a)

-- What slot `i` holds and what the kernel was told after a connection went there.
pub record Accepted (conn_fd now : ℕ) (r r' : Reactor) (i : ℕ) : Type 0 where
  pub first_free : IsFirstFree r.g_events i
  pub here :
      get_elem? r'.g_events i
      ≡ some (record (first_free.event) {
        fd = conn_fd;
        events = epollin;
        call_back = recv_data;
        status = 1;
        last_active = now;
      })
  pub others : (j : ℕ) → i ≢ j → get_elem? r'.g_events j ≡ get_elem? r.g_events j
  pub told : r'.calls ≡ r.calls ++ ctl_add conn_fd epollin ∷ []

find_free-some :
    (n k : ℕ) (evs : List Event) (j : ℕ)
    → j < n
    → IsFirstFree evs j
    → find_free n k evs ≡ some (k + j)
unfolding find_free
find_free-some zero k evs j h f = elim h [ ]
find_free-some (suc n) k [] j h f = cc (f.at)
find_free-some (suc n) k (ev ∷ evs) zero h f =
    let free : (ev.status == 0) ≡ true = ground (arith, f.at, f.free) in
    rw free (ap some (omega arith))
find_free-some (suc n) k (ev ∷ evs) (suc j) h f =
    let busy : (ev.status == 0) ≡ false = ground (arith, f.used) in
    let rest : IsFirstFree evs j = record {
      event = f.event;
      at = f.at;
      free = f.free;
      used = f.used.1;
    } in
    rw (busy, find_free-some n (k + 1) evs j (omega arith) rest) (ap some (omega arith))

-- A new connection takes the first slot among the 1024 that is not in use: the slot waits for data
-- of the new descriptor, the kernel is told to add it, and no other slot changes.
pub accept_free :
    (conn_fd now : ℕ) (r : Reactor) (i : ℕ)
    → i < max_events
    → IsFirstFree r.g_events i
    → Accepted conn_fd now r (accept (some conn_fd) true now r) i
unfolding accept set_event add_event
accept_free conn_fd now r i h f =
    let found : find_free max_events 0 r.g_events ≡ some i =
      find_free-some max_events 0 r.g_events i h f ∙ ap some (omega arith) in
    rw (found, f.at)
      (record {
        first_free = f;
        here =
            ap (λ l. get_elem? l i) (set-set r.g_events i _ _)
            ∙ get_elem?-set_self r.g_events i f.event _ f.at;
        others = λ j ne.
            ap (λ l. get_elem? l j) (set-set r.g_events i _ _)
            ∙ get_elem?-set_ne r.g_events i j _ ne;
        told = refl;
      })
