-- ===== src/Headers.antt =====
-- interface/asio_http/http_request_result.h: header names are compared without regard to case.
pub mod Lookup
mod Tests
use asio_http.Base.{ℕ, ◌+◌, Bool, true, false, ◌&&◌, List, [], ◌∷◌, leb, ◌==◌, if◌then◌else◌, Bytes}

abbrev pub HeaderList : Type 0
HeaderList = List (Bytes × Bytes)

-- `tolower` in the C locale.
unfoldable pub tolower : ℕ → ℕ
tolower c = if leb b'A' c && leb c b'Z' then c + 32 else c

-- `std::equal` over both ranges: of equal lengths, and equal at each place.
unfoldable pub iequals : Bytes → Bytes → Bool
unfolding tolower
iequals [] [] = true
iequals (x ∷ a) (y ∷ b) = tolower x == tolower y && iequals a b
iequals _ _ = false

unfoldable pub get_header : HeaderList → Bytes → Bytes
unfolding iequals
get_header [] header = []
get_header ((name, value) ∷ headers) header =
    if iequals name header then value else get_header headers header
