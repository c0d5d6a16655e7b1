-- ===== src/Memory.antt =====
-- A C++ program's memory, as far as the linked structures of this repository use it: nodes at
-- addresses, each with `prev` and `next` links and a content, beside the fields of the object that
-- owns them. A command either ends, or faults (an access through a null or a freed pointer), or
-- runs out of the rounds that it was given.
pub mod Ends
pub mod Chain
pub mod Unlink
pub mod Access
pub mod Content
use notes_coding.Base.{ℕ, Bool, Option, none, some, ◌==◌, if◌then◌else◌}

abbrev pub Ptr : Type 0
Ptr = ℕ

abbrev pub null : Ptr
null = 0

pub record Node (A : Type 0) : Type 0 where
  pub content : A
  pub prev : Ptr
  pub next : Ptr

abbrev pub Nodes : Type 0 → Type 0
Nodes A = Ptr → Option (Node A)

unfoldable pub write {ℓ} : {B : Type ℓ} → (Ptr → Option B) → Ptr → Option B → Ptr → Option B
write h p c a = if a == p then c else h a

-- `fields` are the members of the object that owns the nodes.
pub record Store (A F : Type 0) : Type 0 where
  pub nodes : Nodes A
  pub fields : F

pub data Outcome (S A : Type 0) : Type 0 where
  done : A → S → Outcome S A
  fault : Outcome S A
  starved : Outcome S A

abbrev pub Cmd : Type 0 → Type 0 → Type 0
Cmd S A = S → Outcome S A

module _ {S : Type 0} where
  abbrev pub pure : {A : Type 0} → A → Cmd S A
  pure a s = done a s

  abbrev pub after : {A B : Type 0} → Outcome S A → (A → Cmd S B) → Outcome S B
  after (done a s) k = k a s
  after fault k = fault
  after starved k = starved

  infixl 5 ◌>>=◌ ◌>>◌
  abbrev pub ◌>>=◌ : {A B : Type 0} → Cmd S A → (A → Cmd S B) → Cmd S B
  m >>= k = λ s. after (m s) k

  abbrev pub ◌>>◌ : {A B : Type 0} → Cmd S A → Cmd S B → Cmd S B
  m >> k = m >>= λ _. k

module _ {A F : Type 0} where
  -- The members of the owner.
  abbrev pub get : Cmd (Store A F) F
  get s = done s.fields s

  abbrev pub put : F → Cmd (Store A F) (Unit {0})
  put f s = done tt (record s { fields = f })

  -- `*p`
  unfoldable pub load : Ptr → Cmd (Store A F) (Node A)
  load p s = if p == null then fault else elim (s.nodes p) [ none ↦ fault | some n ↦ done n s ]

  abbrev pub store : Ptr → Option (Node A) → Cmd (Store A F) (Unit {0})
  store p c s = done tt (record s { nodes = write s.nodes p c })

  -- `p->next = q`
  unfoldable pub set_next : Ptr → Ptr → Cmd (Store A F) (Unit {0})
  set_next p q = do n ← load p; store p (some (record n { next = q }))

  -- `p->prev = q`
  unfoldable pub set_prev : Ptr → Ptr → Cmd (Store A F) (Unit {0})
  set_prev p q = do n ← load p; store p (some (record n { prev = q }))

  -- A write to fields of `*p` other than the links.
  unfoldable pub set_content : Ptr → (A → A) → Cmd (Store A F) (Unit {0})
  set_content p f = do n ← load p; store p (some (record n { content = f n.content }))

  -- `delete p`
  unfoldable pub delete : Ptr → Cmd (Store A F) (Unit {0})
  delete p = if p == null then pure tt else (do load p; store p none)
