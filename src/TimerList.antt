-- ===== src/TimerList.antt =====
-- high-performance-server-programming-linux/ch11/timer_list.h: timers on an ascending doubly linked
-- list. Each loop is given a number of rounds. The time is an argument of `tick`; a call of a
-- timer's callback is recorded in `calls`, and callbacks do not touch the list.
pub mod Spec
pub mod Add
pub mod Unlink
pub mod Tick
pub mod Due
pub mod Order
pub mod Destroy
mod Tests
pub mod Relocate
pub mod Adjust
pub mod Delete
pub mod Insert
use notes_coding.Base.{ℕ, zero, suc, List, [], ◌∷◌, ◌++◌, ltb, ◌==◌, if◌then◌else◌}
use notes_coding.Memory.{
  Ptr, null, Store, Cmd, starved, pure, ◌>>=◌, ◌>>◌, get, put, load, set_next, set_prev,
  set_content, delete,
}

-- `UtilTimer` without its links. A callback and the client data that it is called with are names.
pub record UtilTimer : Type 0 where
  pub expire : ℕ
  pub cb_func : ℕ
  pub user_data : ℕ

pub record SortedTimerLst : Type 0 where
  pub head : Ptr
  pub tail : Ptr
  pub calls : List (ℕ × ℕ)

abbrev pub Timers : Type 0
Timers = Store UtilTimer SortedTimerLst

abbrev pub TimerCmd : Type 0
TimerCmd = Cmd Timers (Unit {0})

abbrev pub set_head : Ptr → TimerCmd
set_head p = do f ← get; put (record f { head = p })

abbrev pub set_tail : Ptr → TimerCmd
set_tail p = do f ← get; put (record f { tail = p })

-- The four writes that put `timer` between `prev` and `next`.
pub insert_between : (timer prev next : Ptr) → TimerCmd
insert_between timer prev next = do
  set_next prev timer
  set_next timer next
  set_prev next timer
  set_prev timer prev

-- The writes that put `timer` behind the last node `prev`.
pub insert_last : (timer prev : Ptr) → TimerCmd
insert_last timer prev = do
  set_next prev timer
  set_next timer null
  set_prev timer prev
  set_tail timer

-- The loop of the private `addTimer(timer, lst_head)`, with what follows it.
pub add_loop : ℕ → (timer prev next : Ptr) → TimerCmd
add_loop zero timer prev next = λ _. starved
add_loop (suc k) timer prev next = if next == null then insert_last timer prev else do
  t ← load timer
  n ← load next
  if ltb t.content.expire n.content.expire
      then insert_between timer prev next
      else add_loop k timer next n.next

-- `addTimer(timer, lst_head)`
pub add_timer_after : ℕ → (timer lst_head : Ptr) → TimerCmd
unfolding add_loop insert_between insert_last
add_timer_after k timer lst_head = do h ← load lst_head; add_loop k timer lst_head h.next

-- `addTimer(timer)`
pub add_timer : ℕ → Ptr → TimerCmd
unfolding add_timer_after
add_timer k timer = if timer == null then pure tt else do
  f ← get
  if f.head == null then (do set_head timer; set_tail timer) else do
    t ← load timer
    h ← load f.head
    if ltb t.content.expire h.content.expire
        then (do set_next timer f.head; set_prev f.head timer; set_head timer)
        else add_timer_after k timer f.head

-- `timer->prev->next = timer->next; timer->next->prev = timer->prev;`
pub bypass : Ptr → TimerCmd
bypass timer = do t ← load timer; set_next t.prev t.next; t ← load timer; set_prev t.next t.prev

-- `head = head->next; head->prev = nullptr;`
pub drop_head : TimerCmd
drop_head = do f ← get; h ← load f.head; set_head h.next; f ← get; set_prev f.head null

-- `adjustTimer(timer)`
pub adjust_timer : ℕ → Ptr → TimerCmd
unfolding bypass drop_head add_timer_after
adjust_timer k timer = if timer == null then pure tt else do
  t ← load timer
  if t.next == null then pure tt else do
    n ← load t.next
    if ltb t.content.expire n.content.expire then pure tt else do
      f ← get
      if timer == f.head
          then (do drop_head; set_next timer null; f ← get; add_timer_after k timer f.head)
          else (do bypass timer; f ← get; add_timer_after k timer f.head)

-- `timer->expire = expire; timer_lst.adjustTimer(timer);`, what a server does when a client is heard.
pub put_off : ℕ → Ptr → (expire : ℕ) → TimerCmd
put_off k timer expire = do
  set_content timer (λ t. record t { expire = expire })
  adjust_timer k timer

-- `tail = tail->prev; tail->next = nullptr;`
pub drop_tail : TimerCmd
drop_tail = do f ← get; t ← load f.tail; set_tail t.prev; f ← get; set_next f.tail null

-- `delTimer(timer)`
pub del_timer : Ptr → TimerCmd
unfolding bypass drop_head drop_tail
del_timer timer = if timer == null then pure tt else do
  f ← get
  if timer == f.head
      then (if timer == f.tail
          then (do delete timer; set_head null; set_tail null)
          else (do drop_head; delete timer))
      else (if timer == f.tail
          then (do drop_tail; delete timer)
          else (do bypass timer; delete timer))

-- `cur->cb_func(cur->user_data)`
pub call_back : UtilTimer → TimerCmd
call_back t = do f ← get; put (record f { calls = f.calls ++ ((t.cb_func, t.user_data) ∷ []) })

-- `head = cur->next; if (head) head->prev = nullptr; delete cur; cur = head;`
pub retire : Ptr → Cmd Timers Ptr
retire cur = do
  c ← load cur
  set_head c.next
  if c.next == null then pure tt else set_prev c.next null
  delete cur
  f ← get
  pure f.head

pub tick_loop : ℕ → (now : ℕ) → Ptr → TimerCmd
tick_loop zero now cur = λ _. starved
tick_loop (suc k) now cur = if cur == null then pure tt else do
  c ← load cur
  if ltb now c.content.expire
      then pure tt
      else do call_back c.content; next ← retire cur; tick_loop k now next

-- `tick()` at the time `now`
pub tick : ℕ → (now : ℕ) → TimerCmd
unfolding tick_loop call_back retire
tick k now = do f ← get; if f.head == null then pure tt else tick_loop k now f.head

pub destroy_loop : ℕ → Ptr → TimerCmd
destroy_loop zero tmp = λ _. starved
destroy_loop (suc k) tmp =
    if tmp == null
    then pure tt
    else do t ← load tmp; set_head t.next; delete tmp; f ← get; destroy_loop k f.head

-- `~SortedTimerLst()`
pub destroy : ℕ → TimerCmd
unfolding destroy_loop
destroy k = do f ← get; destroy_loop k f.head
