-- ===== src/Epoll/Tests.antt =====
-- The client 7, which sends five bytes and then has no more, or closes.
use notes_coding.Base.{◌≡◌, none, some, List, [], ◌∷◌, ◌++◌, map}
use notes_coding.Epoll.{again, Server, readable, lt, et}
use notes_coding.Epoll.Modes.{Chunk, received, Reads, et-lt}

abbrev start : Server
start = record { edge = λ fd. none; closes = []; printed = [] }

abbrev five : List Chunk
five = (65, 66 ∷ 67 ∷ 68 ∷ []) ∷ (69, []) ∷ []

et-lt_example :
    (g : Server) × (et (readable 7 (map received five ++ again ∷ []) ∷ []) start ≡ some g)
    × Reads start g (lt (map (λ c. readable 7 (received c)) five) start) [] []
et-lt_example = et-lt 7 five start
