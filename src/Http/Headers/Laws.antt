-- ===== src/Http/Headers/Laws.antt =====
-- Looking a key up after an insertion.
use libnodecc.Prelude.{
  Bytes, bytes_eq, bytes_eq_iff, ◌≡◌, refl, arith, [], ◌∷◌, none, some, if◌then◌else◌,
}
use libnodecc.Http.Headers.{Headers, find, emplace}

-- The entry that is there stays, and no other key changes.
pub find-emplace :
    (j k v : Bytes) (hs : Headers)
    → find j (emplace k v hs)
      ≡ elim (find j hs) [ some w ↦ some w | none ↦ if bytes_eq k j then some v else none ]
unfolding find emplace
find-emplace j k v [] = refl
find-emplace j k v ((i, w) ∷ hs) =
    ground (arith, bytes_eq_iff i k, bytes_eq_iff i j, bytes_eq_iff k j, find-emplace j k v hs)
