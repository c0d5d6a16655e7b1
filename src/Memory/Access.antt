-- ===== src/Memory/Access.antt =====
-- What a load, a write to a link and a `delete` do at an allocated address; the rules step over
-- such an access inside a longer command.
use notes_coding.Base.{◌≡◌, false, none, some, ◌==◌}
use notes_coding.Memory.{
  Ptr, null, Node, Store, Cmd, done, after, write, load, set_next, set_prev, set_content, delete,
}
use notes_coding.Memory.Ends.{Ends, ends}

module _ {A F : Type 0} (s : Store A F) (p : Ptr) (n : Node A) (real : (p == null) ≡ false)
    (held : s.nodes p ≡ some n) where
  load-done : load p s ≡ done n s
  unfolding load
  load-done = rw (real, held)

  set_next-done :
      (q : Ptr)
      → set_next p q s
        ≡ done tt (record s { nodes = write s.nodes p (some (record n { next = q })) })
  unfolding set_next
  set_next-done q = rw load-done

  set_prev-done :
      (q : Ptr)
      → set_prev p q s
        ≡ done tt (record s { nodes = write s.nodes p (some (record n { prev = q })) })
  unfolding set_prev
  set_prev-done q = rw load-done

  set_content-done :
      (f : A → A)
      → set_content p f s
        ≡ done tt (record s { nodes = write s.nodes p (some (record n { content = f n.content })) })
  unfolding set_content
  set_content-done f = rw load-done

  delete-done : delete p s ≡ done tt (record s { nodes = write s.nodes p none })
  unfolding delete
  delete-done = rw (real, load-done)

module _ {A F B : Type 0} {Q : B → Store A F → Type 0} (s : Store A F) (p : Ptr) where
  pub load_then :
      (k : Node A → Cmd (Store A F) B) (n : Node A)
      → (p == null) ≡ false
      → s.nodes p ≡ some n
      → Ends Q (k n s)
      → Ends Q (after (load p s) k)
  load_then k n real held e = rw (load-done s p n real held) e

  pub next_then :
      (q : Ptr) (k : Unit {0} → Cmd (Store A F) B) (n : Node A)
      → (p == null) ≡ false
      → s.nodes p ≡ some n
      → Ends Q (k tt (record s { nodes = write s.nodes p (some (record n { next = q })) }))
      → Ends Q (after (set_next p q s) k)
  next_then q k n real held e = rw (set_next-done s p n real held q) e

  pub prev_then :
      (q : Ptr) (k : Unit {0} → Cmd (Store A F) B) (n : Node A)
      → (p == null) ≡ false
      → s.nodes p ≡ some n
      → Ends Q (k tt (record s { nodes = write s.nodes p (some (record n { prev = q })) }))
      → Ends Q (after (set_prev p q s) k)
  prev_then q k n real held e = rw (set_prev-done s p n real held q) e

  pub content_then :
      (f : A → A) (k : Unit {0} → Cmd (Store A F) B) (n : Node A)
      → (p == null) ≡ false
      → s.nodes p ≡ some n
      → Ends Q
          (k tt (record s { nodes = write s.nodes p (some (record n { content = f n.content })) }))
      → Ends Q (after (set_content p f s) k)
  content_then f k n real held e = rw (set_content-done s p n real held f) e

  pub delete_then :
      (k : Unit {0} → Cmd (Store A F) B) (n : Node A)
      → (p == null) ≡ false
      → s.nodes p ≡ some n
      → Ends Q (k tt (record s { nodes = write s.nodes p none }))
      → Ends Q (after (delete p s) k)
  delete_then k n real held e = rw (delete-done s p n real held) e

module _ {A F : Type 0} {Q : Unit {0} → Store A F → Type 0} (s : Store A F) (p : Ptr) where
  pub next_last :
      (q : Ptr) (n : Node A)
      → (p == null) ≡ false
      → s.nodes p ≡ some n
      → Q tt (record s { nodes = write s.nodes p (some (record n { next = q })) })
      → Ends Q (set_next p q s)
  next_last q n real held e = rw (set_next-done s p n real held q) (ends e)

  pub prev_last :
      (q : Ptr) (n : Node A)
      → (p == null) ≡ false
      → s.nodes p ≡ some n
      → Q tt (record s { nodes = write s.nodes p (some (record n { prev = q })) })
      → Ends Q (set_prev p q s)
  prev_last q n real held e = rw (set_prev-done s p n real held q) (ends e)

  pub delete_last :
      (n : Node A)
      → (p == null) ≡ false
      → s.nodes p ≡ some n
      → Q tt (record s { nodes = write s.nodes p none })
      → Ends Q (delete p s)
  delete_last n real held e = rw (delete-done s p n real held) (ends e)
