-- ===== src/Http/Headers.antt =====
-- The header map of a message, `std::unordered_map` of buffers by their contents. It is a list in
-- the order of insertion, which stands for the order in which the map is walked.
pub mod Laws
use libnodecc.Prelude.{Bytes, bytes_eq, List, [], ◌∷◌, Option, none, some, if◌then◌else◌}

abbrev pub Headers : Type 0
Headers = List (Bytes × Bytes)

unfoldable pub find : Bytes → Headers → Option Bytes
find key [] = none
find key ((k, v) ∷ hs) = if bytes_eq k key then some v else find key hs

-- `emplace` keeps the entry that is there.
unfoldable pub emplace : Bytes → Bytes → Headers → Headers
emplace key value [] = (key, value) ∷ []
emplace key value ((k, v) ∷ hs) =
    if bytes_eq k key then (k, v) ∷ hs else (k, v) ∷ emplace key value hs
