-- ===== src/Headers/Tests.antt =====
-- Lookups of a header under another spelling, of which there are two.
use asio_http.Base.{arith, codes, [], ◌∷◌, ◌≡◌, refl}
use asio_http.Headers.{HeaderList, get_header}
use asio_http.Headers.Lookup.{Finds, get_header-Finds}

abbrev answered : HeaderList
answered =
    (codes "server", codes "x")
    ∷ (codes "LOCATION", codes "/a")
    ∷ (codes "location", codes "/b")
    ∷ []

get_header-Finds_example :
    Finds (codes "Location") answered (get_header answered (codes "Location"))
    × (get_header answered (codes "lOCATION") ≡ get_header answered (codes "Location"))
get_header-Finds_example =
    get_header-Finds answered (codes "Location") (codes "lOCATION") (ground arith)

first_wins : get_header answered (codes "Location") ≡ codes "/a"
unfolding get_header
first_wins = refl
