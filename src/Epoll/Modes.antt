-- ===== src/Epoll/Modes.antt =====
-- The two modes on the same data of one client.
use notes_coding.Base.{ℕ, ◌≡◌, refl, sym, ◌∙◌, ap, subst, some, List, [], ◌∷◌, ◌++◌, map}
use mathlib.Core.List.{append_assoc, append-nil}
use notes_coding.Epoll.{
  Received, bytes, end_of_stream, again, failed, Line, event_trigger, got, read_later,
  something_else, Server, print, close, got_line, Event, readable, lt_receive, lt, et_loop, et,
}

-- What is read at once.
abbrev pub Chunk : Type 0
Chunk = ℕ × List ℕ

abbrev pub received : Chunk → Received
received c = bytes c.0 c.1

-- The lines with what was read.
unfoldable pub gots : List Line → List Line
gots [] = []
gots (event_trigger ∷ ls) = gots ls
gots (got ret buf ∷ ls) = got ret buf ∷ gots ls
gots (read_later ∷ ls) = gots ls
gots (something_else ∷ ls) = gots ls

gots-append : (ks ls : List Line) → gots (ks ++ ls) ≡ gots ks ++ gots ls
unfolding gots
gots-append [] ls = refl
gots-append (event_trigger ∷ ks) ls = gots-append ks ls
gots-append (got ret buf ∷ ks) ls = ap (λ l. got ret buf ∷ l) (gots-append ks ls)
gots-append (read_later ∷ ks) ls = gots-append ks ls
gots-append (something_else ∷ ks) ls = gots-append ks ls

-- `s` after it has printed `ls`.
abbrev printing : List Line → Server → Server
printing ls s = record s { printed = s.printed ++ ls }

lines : List Chunk → List Line
lines cs = map (λ c. got_line c.0 c.1) cs

gots-lines : (cs : List Chunk) → gots (lines cs) ≡ lines cs
unfolding gots lines
gots-lines [] = refl
gots-lines (c ∷ cs) = ap (λ l. got_line c.0 c.1 ∷ l) (gots-lines cs)

-- The lines of `lt`.
triggered : List Chunk → List Line
triggered [] = []
triggered (c ∷ cs) = event_trigger ∷ got_line c.0 c.1 ∷ triggered cs

gots-triggered : (cs : List Chunk) → gots (triggered cs) ≡ lines cs
unfolding gots lines triggered
gots-triggered [] = refl
gots-triggered (c ∷ cs) = ap (λ l. got_line c.0 c.1 ∷ l) (gots-triggered cs)

et_loop-lines :
    (fd : ℕ) (cs : List Chunk) (rs : List Received) (s : Server)
    → et_loop fd (map received cs ++ rs) s ≡ et_loop fd rs (printing (lines cs) s)
unfolding et_loop lines
et_loop-lines fd [] rs s =
    ap (λ l. et_loop fd rs (record s { printed = l })) (sym (append-nil s.printed))
et_loop-lines fd (c ∷ cs) rs s =
    et_loop-lines fd cs rs (print (got_line c.0 c.1) s)
    ∙ ap (λ l. et_loop fd rs (record s { printed = l }))
        (append_assoc s.printed (got_line c.0 c.1 ∷ []) (lines cs))

lt-triggered :
    (fd : ℕ) (cs : List Chunk) (es : List (Event Received)) (s : Server)
    → lt (map (λ c. readable fd (received c)) cs ++ es) s ≡ lt es (printing (triggered cs) s)
unfolding lt lt_receive triggered
lt-triggered fd [] es s = ap (λ l. lt es (record s { printed = l })) (sym (append-nil s.printed))
lt-triggered fd (c ∷ cs) es s =
    lt-triggered fd cs es (print (got_line c.0 c.1) (print event_trigger s))
    ∙ ap (λ l. lt es (record s { printed = l }))
        (append_assoc (s.printed ++ event_trigger ∷ []) (got_line c.0 c.1 ∷ []) (triggered cs)
          ∙ append_assoc s.printed (event_trigger ∷ []) (got_line c.0 c.1 ∷ triggered cs))

-- Both have read the same, and `et` has closed the sockets `a`, `lt` the sockets `b`.
pub record Reads (s g h : Server) (a b : List ℕ) : Type 0 where
  pub same : gots g.printed ≡ gots h.printed
  pub et_closes : g.closes ≡ s.closes ++ a
  pub lt_closes : h.closes ≡ s.closes ++ b

same_lines :
    (s : Server) (cs : List Chunk) (ls : List Line)
    → gots ls ≡ []
    → gots (((s.printed ++ event_trigger ∷ []) ++ lines cs) ++ ls)
      ≡ gots (s.printed ++ triggered cs)
unfolding gots
same_lines s cs ls none_read =
    gots-append ((s.printed ++ event_trigger ∷ []) ++ lines cs) ls
    ∙ ap (λ l. gots ((s.printed ++ event_trigger ∷ []) ++ lines cs) ++ l) none_read
    ∙ append-nil (gots ((s.printed ++ event_trigger ∷ []) ++ lines cs))
    ∙ ap gots (append_assoc s.printed (event_trigger ∷ []) (lines cs))
    ∙ gots-append s.printed (event_trigger ∷ lines cs)
    ∙ ap (λ l. gots s.printed ++ l) (gots-lines cs ∙ sym (gots-triggered cs))
    ∙ sym (gots-append s.printed (triggered cs))

-- One event of `et`, whose calls of `recv` return some chunks of bytes and then EAGAIN, ends and reads
-- what one event of `lt` for each of the chunks reads, and neither closes the socket.
pub et-lt :
    (fd : ℕ) (cs : List Chunk) (s : Server)
    → (g : Server) × (et (readable fd (map received cs ++ again ∷ []) ∷ []) s ≡ some g)
      × Reads s g (lt (map (λ c. readable fd (received c)) cs) s) [] []
unfolding et et_loop lt gots
et-lt fd cs s =
    let g : Server = print read_later (printing (lines cs) (print event_trigger s)) in
    let es : List (Event Received) = map (λ c. readable fd (received c)) cs in
    let end : lt es s ≡ printing (triggered cs) s =
      ap (λ l. lt l s) (sym (append-nil es)) ∙ lt-triggered fd cs [] s in
    (
      g,
      rw (et, et_loop-lines fd cs (again ∷ []) (print event_trigger s)) refl,
      subst (λ h. Reads s g h [] []) (sym end)
          (record {
            same = same_lines s cs (read_later ∷ []) refl;
            et_closes = sym (append-nil s.closes);
            lt_closes = sym (append-nil s.closes);
          }),
    )

-- When a client sends some chunks of bytes and closes, and the next `recv` of its closed socket fails,
-- one event of `et` reads what `lt` reads in one event for each chunk and one for the end, but closes
-- the socket twice, and `lt` once.
pub et-closes :
    (fd : ℕ) (cs : List Chunk) (s : Server)
    → (g : Server) × (et (readable fd (map received cs ++ end_of_stream ∷ failed ∷ []) ∷ []) s
        ≡ some g)
      × Reads s g
          (lt (map (λ c. readable fd (received c)) cs ++ readable fd end_of_stream ∷ []) s)
          (fd ∷ fd ∷ [])
          (fd ∷ [])
unfolding et et_loop lt lt_receive gots
et-closes fd cs s =
    let g : Server = close fd (close fd (printing (lines cs) (print event_trigger s))) in
    (
      g,
      rw (et, et_loop-lines fd cs (end_of_stream ∷ failed ∷ []) (print event_trigger s)) refl,
      subst (λ h. Reads s g h (fd ∷ fd ∷ []) (fd ∷ []))
          (sym (lt-triggered fd cs (readable fd end_of_stream ∷ []) s))
          (record {
            same =
                ap gots (sym (append-nil ((s.printed ++ event_trigger ∷ []) ++ lines cs)))
                ∙ same_lines s cs [] refl
                ∙ sym (append-nil (gots (s.printed ++ triggered cs)))
                ∙ sym (gots-append (s.printed ++ triggered cs) (event_trigger ∷ []));
            et_closes = append_assoc s.closes (fd ∷ []) (fd ∷ []);
            lt_closes = refl;
          }),
    )
