-- ===== src/Http/Url/Object.antt =====
-- The class `url` of src/http/incoming_message.cc, which parses when it is first asked. The parser
-- `http_parser_parse_url` is third-party and a parameter.
use libnodecc.Prelude.{
  ℕ, ◌+◌, Bytes, is_empty, Bool, true, false, not, ◌&&◌, [], Option, none, some,
}
use libnodecc.Prelude.{ltb, if◌then◌else◌}
use libnodecc.Buffer.Mutable.{slice}
use libnodecc.Http.Headers.{Headers, find}
use libnodecc.Http.Url.{parse_params}

-- `UF_SCHEMA` to `UF_USERINFO`.
pub data Part : Type 0 where
  schema : Part
  host : Part
  port : Part
  path : Part
  query : Part
  fragment : Part
  userinfo : Part

-- `http_parser_url`: where each part stands, if there is one, and the number of the port.
pub record Fields : Type 0 where
  pub place : Part → Option (ℕ × ℕ)
  pub port_num : ℕ

pub data Stage : Type 0 where
  uninitialized : Stage
  url_parsed : Stage
  params_parsed : Stage
  error : Stage

abbrev pub rank : Stage → ℕ
rank uninitialized = 0
rank url_parsed = 1
rank params_parsed = 2
rank error = 3

pub record Url : Type 0 where
  pub params : Headers
  pub url : Bytes
  pub parser : Fields
  pub state : Stage

unfoldable pub set_url : Bytes → Url → Url
set_url bs u = record u { url = bs; params = []; state = uninitialized }

unfoldable pub clear : Url → Url
clear u = record u { url = []; params = []; state = uninitialized }

-- `parse` gives the fields that it fills, and whether the URL is one.
module _ (parse : Bytes → Fields × Bool) where
  unfoldable pub parse_url : Url → Url × Bool
  parse_url u =
      if ltb (rank u.state) (rank url_parsed) && not (is_empty u.url)
      then (let r = parse u.url in
          if r.1
          then (record u { state = url_parsed; parser = r.0 }, true)
          else (record u { state = error; parser = r.0 }, false))
      else (u, true)

  unfoldable pub part_of : Part → Url → Bytes
  part_of p u = elim (u.parser.place p) [
    | none ↦ []
    | some (off, len) ↦ slice u.url off (off + len)
  ]

  -- `_get`.
  unfoldable pub get : Part → Url → Url × Bytes
  get p u = let u' = (parse_url u).0 in (u', part_of p u')

  unfoldable pub port_num : Url → Url × ℕ
  port_num u =
      let u' = (parse_url u).0 in
      (u', elim (u'.parser.place port) [ none ↦ 0 | some p ↦ u'.parser.port_num ])

  -- `_parse_params`, with the loop over the query as `parse_params`, which inserts nothing for
  -- an empty one.
  unfoldable pub parse_query : Url → Url
  parse_query u =
      if ltb (rank u.state) (rank params_parsed)
      then (let r = parse_url u in
          if r.1
          then (let q = get query (record (r.0) { state = params_parsed }) in
              if not (is_empty q.1) then record (q.0) { params = parse_params q.1 } else q.0)
          else r.0)
      else u

  unfoldable pub has_param : Bytes → Url → Url × Bool
  has_param key u =
      let u' = parse_query u in (u', elim (find key u'.params) [ none ↦ false | some v ↦ true ])

  unfoldable pub param : Bytes → Url → Url × Bytes
  param key u = let u' = parse_query u in (u', elim (find key u'.params) [ none ↦ [] | some v ↦ v ])

  -- The parameters of a URL, read at once.
  unfoldable pub params_of : Bytes → Headers
  params_of bs =
      let r = parse bs in
      if r.1
      then elim (r.0.place query) [
        | none ↦ []
        | some (off, len) ↦
            (let q = slice bs off (off + len) in if not (is_empty q) then parse_params q else [])
      ]
      else []
