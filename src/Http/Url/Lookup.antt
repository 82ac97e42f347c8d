-- ===== src/Http/Url/Lookup.antt =====
-- The parameters that a URL finds, whatever it was asked before.
use libnodecc.Prelude.{
  ◌≡◌, ◌≢◌, refl, ap, arith, Bytes, is_empty, Bool, true, false, List, [], ◌∷◌, none, some,
}
use libnodecc.Http.Headers.{find}
use libnodecc.Http.Url.Object.{
  Part, Fields, uninitialized, url_parsed, params_parsed, error, Url, set_url, parse_url, part_of,
  get, port_num, parse_query, has_param, param, params_of,
}

-- What a URL may be asked.
pub data Access : Type 0 where
  gets : Part → Access
  gets_port : Access
  has : Bytes → Access
  takes : Bytes → Access

module _ (parse : Bytes → Fields × Bool) where
  unfoldable pub access : Access → Url → Url
  access (gets p) u = (get parse p u).0
  access gets_port u = (port_num parse u).0
  access (has key) u = (has_param parse key u).0
  access (takes key) u = (param parse key u).0

  unfoldable pub access_all : List Access → Url → Url
  access_all [] u = u
  access_all (a ∷ asked) u = access_all asked (access a u)

  -- How far the reading of `bs` has come.
  record IsRead (bs : Bytes) (u : Url) : Type 0 where
    url : u.url ≡ bs
    unread : u.state ≡ uninitialized → u.params ≡ []
    half :
        u.state ≡ url_parsed → (u.params ≡ []) × ((parse bs).1 ≡ true) × (u.parser ≡ (parse bs).0)
    done : u.state ≡ params_parsed → u.params ≡ params_of parse bs
    failed : u.state ≡ error → u.params ≡ params_of parse bs

  set_url-IsRead : (bs : Bytes) (u : Url) → IsRead bs (set_url bs u)
  unfolding set_url
  set_url-IsRead bs u = record {
    url = refl;
    unread = λ e. refl;
    half = λ e. ground (arith, e);
    done = λ e. ground (arith, e);
    failed = λ e. ground (arith, e);
  }

  parse_url-IsRead :
      (bs : Bytes) (u : Url) → is_empty bs ≡ false → IsRead bs u → IsRead bs (parse_url parse u).0
  unfolding parse_url params_of
  parse_url-IsRead bs u some_bytes h = record {
    url = ground (arith, h.url);
    unread = λ e. ground (arith, some_bytes, h.url, h.unread, e);
    half = λ e. ground (arith, some_bytes, h.url, h.unread, h.half, e);
    done = λ e. ground (arith, some_bytes, h.url, h.unread, h.done, e);
    failed = λ e. ground (arith, some_bytes, h.url, h.unread, h.failed, e);
  }

  parse_query-params :
      (bs : Bytes) (u : Url)
      → is_empty bs ≡ false
      → IsRead bs u
      → (parse_query parse u).params ≡ params_of parse bs
  unfolding parse_query parse_url get part_of params_of
  parse_query-params bs u some_bytes h =
      ground (arith, some_bytes, h.url, h.unread, h.half, h.done, h.failed)

  -- Reading the query ends in one of the last two stages.
  parse_query-ends :
      (bs : Bytes) (u : Url)
      → is_empty bs ≡ false
      → IsRead bs u
      → ((parse_query parse u).url ≡ bs)
        × ((parse_query parse u).state ≢ uninitialized)
        × ((parse_query parse u).state ≢ url_parsed)
  unfolding parse_query parse_url get
  parse_query-ends bs u some_bytes h = (
    ground (arith, h.url),
    λ e. ground (arith, some_bytes, h.url, e),
    λ e. ground (arith, some_bytes, h.url, e),
  )

  parse_query-IsRead :
      (bs : Bytes) (u : Url) → is_empty bs ≡ false → IsRead bs u → IsRead bs (parse_query parse u)
  parse_query-IsRead bs u some_bytes h = record {
    url = (parse_query-ends bs u some_bytes h).0;
    unread = λ e. absurd ((parse_query-ends bs u some_bytes h).1 e);
    half = λ e. absurd ((parse_query-ends bs u some_bytes h).2 e);
    done = λ e. parse_query-params bs u some_bytes h;
    failed = λ e. parse_query-params bs u some_bytes h;
  }

  access-IsRead :
      (bs : Bytes) (a : Access) (u : Url)
      → is_empty bs ≡ false
      → IsRead bs u
      → IsRead bs (access a u)
  unfolding access get port_num has_param param
  access-IsRead bs (gets p) u some_bytes h = parse_url-IsRead bs u some_bytes h
  access-IsRead bs gets_port u some_bytes h = parse_url-IsRead bs u some_bytes h
  access-IsRead bs (has key) u some_bytes h = parse_query-IsRead bs u some_bytes h
  access-IsRead bs (takes key) u some_bytes h = parse_query-IsRead bs u some_bytes h

  access_all-IsRead :
      (bs : Bytes) (asked : List Access) (u : Url)
      → is_empty bs ≡ false
      → IsRead bs u
      → IsRead bs (access_all asked u)
  unfolding access_all
  access_all-IsRead bs [] u some_bytes h = h
  access_all-IsRead bs (a ∷ asked) u some_bytes h =
      access_all-IsRead bs asked (access a u) some_bytes (access-IsRead bs a u some_bytes h)

  -- Once a nonempty URL is set, and whatever parts, ports and parameters it is asked for first, a
  -- parameter is what the query of that URL says, and empty if the query does not have it or the
  -- URL is not one.
  pub param-access_all :
      (bs key : Bytes) (u : Url) (asked : List Access)
      → is_empty bs ≡ false
      → (param parse key (access_all asked (set_url bs u))).1
        ≡ elim (find key (params_of parse bs)) [ none ↦ [] | some v ↦ v ]
  unfolding param
  param-access_all bs key u asked some_bytes =
      ap (λ ps. elim (find key ps) as (λ _. Bytes) [ none ↦ [] | some v ↦ v ])
        (parse_query-params bs (access_all asked (set_url bs u)) some_bytes
          (access_all-IsRead bs asked (set_url bs u) some_bytes (set_url-IsRead bs u)))
