-- ===== src/Config/Url.antt =====
-- src/config.rs: the names of a server. The `url` crate's `Url` is a parameter: it is what its
-- accessor functions answer.
pub mod Safe
pub mod Slashes
use Prim.Native.Char.{Char, code}
use Prim.Native.String.{char_at}
use subspace_daemon.Base.{
  Bool, List, Option, Result, String, [], and_then, append_text, bail_if, decimal, eqb, err, false,
  get_or, if◌then◌else◌, is_empty_text, is_some, join, leb, none, not, ok, option_map, some,
  starts_with, suc, text_length, trim, true, zero, ℕ, ◌&&◌, ◌-◌, ◌==◌, ◌>>=◌, ◌||◌, ◌∷◌,
}
use subspace_daemon.Config.Error.{
  ConfigError, missing_base_url, userinfo_in_url, query_or_fragment_in_url, missing_scheme,
  missing_host, missing_port, unsupported_url_scheme,
}

pub record Url : Type 0 where
  pub scheme : String
  pub username : String
  pub password : Option String
  pub host_str : Option String
  pub port : Option ℕ
  pub port_or_known_default : Option ℕ
  pub path : String
  pub path_segments : Option (List String)
  pub query : Option String
  pub fragment : Option String

-- `char::to_ascii_lowercase`
unfoldable pub char_to_ascii_lowercase : Char → Char
char_to_ascii_lowercase c =
    if leb b'A' (code c) && leb (code c) b'Z'
    then char_at "abcdefghijklmnopqrstuvwxyz" (code c - b'A')
    else c

-- `str::to_ascii_lowercase`
unfoldable pub to_ascii_lowercase : String → String
unfolding char_to_ascii_lowercase
to_ascii_lowercase String.[] = ""
to_ascii_lowercase (String.◌∷◌ c s) = String.◌∷◌ (char_to_ascii_lowercase c) (to_ascii_lowercase s)

-- the letters and digits that a server key may have
abbrev pub is_safe : ℕ → Bool
is_safe c = leb b'a' c && leb c b'z' || leb b'0' c && leb c b'9'

-- The loop of `sanitize_server_key_component`; the Boolean is `last_was_underscore`.
unfoldable pub sanitize_from : Bool → String → String
unfolding char_to_ascii_lowercase
sanitize_from last String.[] = ""
sanitize_from last (String.◌∷◌ c s) =
    let normalized = char_to_ascii_lowercase c in
    let after_safe = sanitize_from false s in
    let after_other = sanitize_from true s in
    if is_safe (code normalized)
    then String.◌∷◌ normalized after_safe
    else if last
    then after_other
    else String.◌∷◌ "_" after_other

unfoldable pub trim_underscores_start : String → String
trim_underscores_start String.[] = ""
trim_underscores_start (String.◌∷◌ c s) =
    let rest = trim_underscores_start s in if eqb (code c) b'_' then rest else String.◌∷◌ c s

unfoldable pub trim_underscores_end : String → String
trim_underscores_end String.[] = ""
trim_underscores_end (String.◌∷◌ c s) =
    let rest = trim_underscores_end s in
    if eqb (code c) b'_' && is_empty_text rest then "" else String.◌∷◌ c rest

unfoldable pub sanitize_server_key_component : String → Option String
unfolding sanitize_from trim_underscores_start trim_underscores_end
sanitize_server_key_component raw =
    let trimmed = trim_underscores_end (trim_underscores_start (sanitize_from false raw)) in
    if is_empty_text trimmed then none else some trimmed

-- `String::pop`
abbrev pop : String → String
pop String.[] = ""
pop (String.◌∷◌ c String.[]) = ""
pop (String.◌∷◌ c (String.◌∷◌ d s)) = String.◌∷◌ c (pop (String.◌∷◌ d s))

abbrev ends_with_slash : String → Bool
ends_with_slash String.[] = false
ends_with_slash (String.◌∷◌ c String.[]) = eqb (code c) b'/'
ends_with_slash (String.◌∷◌ c (String.◌∷◌ d s)) = ends_with_slash (String.◌∷◌ d s)

-- The loop of `normalize_path`; the fuel is the length of the text, of which each step takes one.
unfoldable pub pop_slashes : ℕ → String → String
pop_slashes zero s = s
pop_slashes (suc fuel) s =
    let rest = pop_slashes fuel (pop s) in if ends_with_slash s && not (s == "/") then rest else s

unfoldable pub normalize_path : String → String
unfolding trim pop_slashes
normalize_path path =
    let trimmed = trim path in
    let normalized = pop_slashes (text_length trimmed) trimmed in
    if is_empty_text trimmed || trimmed == "/"
    then "/"
    else if starts_with normalized "/"
    then normalized
    else append_text "/" normalized

-- `ok_or_else`
abbrev pub ok_or : {A : Type 0} → Option A → ConfigError → Result ConfigError A
ok_or none e = err e
ok_or (some a) e = ok a

unfoldable pub effective_port : Url → Result ConfigError ℕ
effective_port parsed = ok_or parsed.port_or_known_default missing_port

abbrev pub is_http : String → Bool
is_http scheme = scheme == "http" || scheme == "https"

abbrev base_path : String → String
base_path path = if path == "/" then "" else path

-- The part of `canonicalize_base_url` after the URL is parsed. A scheme that is not `http` is
-- `https` here, so its default port is 443.
unfoldable pub canonical_name : Url → Result ConfigError String
unfolding to_ascii_lowercase effective_port normalize_path decimal
canonical_name parsed =
    bail_if (not (is_http parsed.scheme)) (unsupported_url_scheme parsed.scheme) >>= λ _.
    bail_if (not (is_empty_text parsed.username) || is_some parsed.password) userinfo_in_url
    >>= λ _.
        bail_if (is_some parsed.query || is_some parsed.fragment) query_or_fragment_in_url >>= λ _.
        ok_or (option_map to_ascii_lowercase parsed.host_str) missing_host >>= λ host.
        let scheme = to_ascii_lowercase parsed.scheme in
        effective_port parsed >>= λ port.
        let default_port = if scheme == "http" then 80 else 443 in
        let suffix = if eqb port default_port then "" else append_text ":" (decimal port) in
        ok (join "" (scheme ∷ "://" ∷ host ∷ suffix ∷ base_path (normalize_path parsed.path) ∷ []))

module _ (parse_url : String → Result ConfigError Url) where
  unfoldable pub canonicalize_base_url : String → Result ConfigError String
  unfolding trim canonical_name
  canonicalize_base_url raw = bail_if (is_empty_text (trim raw)) missing_base_url >>= λ _.
      parse_url (trim raw) >>= λ parsed. canonical_name parsed

  unfoldable pub derive_subspace_ws_url : String → Result ConfigError String
  unfolding canonicalize_base_url normalize_path decimal
  derive_subspace_ws_url base_url = canonicalize_base_url base_url >>= λ canonical.
      parse_url canonical >>= λ parsed.
      bail_if (not (is_http parsed.scheme)) (unsupported_url_scheme parsed.scheme) >>= λ _.
      let ws_scheme = if parsed.scheme == "http" then "ws" else "wss" in
      ok_or parsed.host_str missing_host >>= λ host.
      let suffix = get_or (option_map (λ port. append_text ":" (decimal port)) parsed.port) "" in
      let path = base_path (normalize_path parsed.path) in
      ok
        (join "" (ws_scheme ∷ "://" ∷ host ∷ suffix ∷ path ∷ "/api/firehose/stream/websocket" ∷ []))

  -- the segments of the path that leave something
  unfoldable pub sanitize_segments : List String → List String
  unfolding sanitize_server_key_component
  sanitize_segments [] = []
  sanitize_segments (s ∷ ss) =
      let rest = sanitize_segments ss in
      if is_empty_text s
      then rest
      else elim (sanitize_server_key_component s) [ none ↦ rest | some part ↦ part ∷ rest ]

  unfoldable pub derive_server_key : String → Result ConfigError String
  unfolding canonicalize_base_url sanitize_server_key_component sanitize_segments effective_port
  derive_server_key base_url = canonicalize_base_url base_url >>= λ canonical.
      parse_url canonical >>= λ parsed.
      ok_or (sanitize_server_key_component parsed.scheme) missing_scheme >>= λ scheme.
      ok_or (and_then parsed.host_str sanitize_server_key_component) missing_host >>= λ host.
      effective_port parsed >>= λ port.
      ok (
        join "_"
          (scheme ∷ host ∷ decimal port ∷ sanitize_segments (get_or parsed.path_segments [])))
