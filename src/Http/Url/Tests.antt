-- ===== src/Http/Url/Tests.antt =====
-- Concrete queries.
use libnodecc.Prelude.{
  ℕ, ◌+◌, ◌-◌, ◌≡◌, refl, arith, Bytes, codes, Bool, true, List, [], ◌∷◌, ◌++◌, length, All, Option,
  none, some,
}
use libnodecc.Prelude.{◌==◌, if◌then◌else◌}
use libnodecc.Http.Headers.{Headers, find, emplace}
use libnodecc.Buffer.Mutable.{slice}
use libnodecc.Http.Url.{parse_params, scan, step, take_field, insert_at}
use libnodecc.Http.Url.Object.{
  Part, schema, host, port, path, query, fragment, userinfo, Fields, params_parsed, Url, set_url,
  param, params_of,
}
use libnodecc.Http.Url.Lookup.{Access, gets, gets_port, has, takes, access_all, param-access_all}
use libnodecc.Http.Url.Params.{IsParam, render, find-parse_params}
use libnodecc.Http.Url.Faults.{parse_params-empty_value}

abbrev two_params : Headers
two_params = (codes "a", codes "1=2") ∷ (codes "bc", codes "3") ∷ []

find-parse_params_example :
    find (codes "bc") (parse_params (render two_params)) ≡ find (codes "bc") two_params
unfolding render
find-parse_params_example = find-parse_params two_params (codes "bc") plain (omega arith)
  where
    plain : All IsParam two_params
    plain = ground arith

parse_params-empty_value_example :
    parse_params (codes "a" ++ b'=' ∷ b'&' ∷ codes "bc") ≡ (codes "a", codes "=&bc") ∷ []
parse_params-empty_value_example =
    parse_params-empty_value (codes "a") (codes "bc") (omega arith) (ground arith) (ground arith)
      (omega arith)

-- The position behind the first `?`.
abbrev behind_mark : Bytes → ℕ → Option ℕ
behind_mark [] i = none
behind_mark (c ∷ cs) i = if c == b'?' then some (i + 1) else behind_mark cs (i + 1)

-- A parser that finds the query.
abbrev sample_place : Bytes → Part → Option (ℕ × ℕ)
sample_place bs query = elim (behind_mark bs 0) [ none ↦ none | some i ↦ some (i, length bs - i) ]
sample_place bs host = none
sample_place bs schema = none
sample_place bs port = none
sample_place bs path = none
sample_place bs fragment = none
sample_place bs userinfo = none

abbrev sample_parse : Bytes → Fields × Bool
sample_parse bs = (record { place = sample_place bs; port_num = 0 }, true)

abbrev old_url : Url
old_url = record {
  params = (codes "x", codes "y") ∷ [];
  url = codes "/?x=y";
  parser = record { place = sample_place (codes "/?x=y"); port_num = 0 };
  state = params_parsed;
}

abbrev questions : List Access
questions = gets path ∷ has (codes "x") ∷ gets_port ∷ takes (codes "a") ∷ []

param-access_all_example :
    (param sample_parse
      (codes "a")
      (access_all sample_parse questions (set_url (codes "/?a=bc") old_url))).1
    ≡ codes "bc"
unfolding params_of slice parse_params scan step take_field insert_at emplace find
param-access_all_example =
    param-access_all sample_parse (codes "/?a=bc") (codes "a") old_url questions refl
