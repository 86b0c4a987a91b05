-- ===== src/Config/Url/Safe.antt =====
-- Which characters a server key has; it names a directory.
use Prim.Native.Nat.{◌/◌, ◌%◌}
use Prim.Native.Char.{code}
use text.Mathlib.TextLemmas.{nil-append, cons-append}
use subspace_daemon.Base.{
  >>=-eq-ok, Bool, List, Option, Option-cases, Result, String, [], all, and_then, ap, append_text,
  arith, decimal, decimal_fuel, digit, eqb, err-ne-ok, false, get_or, inl, inr, join, none, ok,
  ok-inj, refl, some, suc, sym, true, zero, ℕ, ◌&&◌, ◌+◌, ◌||◌, ◌∙◌, ◌∷◌, ◌≡◌,
}
use subspace_daemon.Config.Error.{ConfigError, missing_scheme, missing_host}
use subspace_daemon.Config.Url.{
  Url, is_safe, sanitize_from, trim_underscores_start, trim_underscores_end,
  sanitize_server_key_component, sanitize_segments, ok_or, effective_port, canonicalize_base_url,
  derive_server_key,
}

-- a lower-case letter, a digit or an underscore
abbrev pub is_key_char : ℕ → Bool
is_key_char c = is_safe c || eqb c b'_'

abbrev pub is_key_text : String → Bool
is_key_text String.[] = true
is_key_text (String.◌∷◌ c s) = is_key_char (code c) && is_key_text s

sanitize_from-is_key_text : (last : Bool) (s : String) → is_key_text (sanitize_from last s) ≡ true
unfolding sanitize_from
sanitize_from-is_key_text last String.[] = refl
sanitize_from-is_key_text last (String.◌∷◌ c s) =
    ground (arith, sanitize_from-is_key_text false s, sanitize_from-is_key_text true s)

trim_start-is_key_text :
    (s : String) → is_key_text s ≡ true → is_key_text (trim_underscores_start s) ≡ true
unfolding trim_underscores_start
trim_start-is_key_text String.[] h = refl
trim_start-is_key_text (String.◌∷◌ c s) h = ground (arith, trim_start-is_key_text s)

trim_end-is_key_text :
    (s : String) → is_key_text s ≡ true → is_key_text (trim_underscores_end s) ≡ true
unfolding trim_underscores_end
trim_end-is_key_text String.[] h = refl
trim_end-is_key_text (String.◌∷◌ c s) h = ground (arith, trim_end-is_key_text s)

sanitize_server_key_component-is_key_text :
    (raw : String) {part : String}
    → sanitize_server_key_component raw ≡ some part
    → is_key_text part ≡ true
unfolding sanitize_server_key_component
sanitize_server_key_component-is_key_text raw h =
    let s = sanitize_from false raw in
    ground (
      arith,
      h,
      sanitize_from-is_key_text false raw,
      trim_start-is_key_text s,
      trim_end-is_key_text (trim_underscores_start s),
    )

append-is_key_text :
    (s t : String)
    → is_key_text s ≡ true
    → is_key_text t ≡ true
    → is_key_text (append_text s t) ≡ true
append-is_key_text String.[] t h g = rw (nil-append t) g
append-is_key_text (String.◌∷◌ c s) t h g =
    rw (cons-append c s t) (ground (arith, h, append-is_key_text s t (ground (arith, h)) g))

join-is_key_text :
    (parts : List String) → all is_key_text parts ≡ true → is_key_text (join "_" parts) ≡ true
unfolding join
join-is_key_text [] h = refl
join-is_key_text (s ∷ []) h = ground (arith, h)
join-is_key_text (s ∷ t ∷ ts) h =
    append-is_key_text s (append_text "_" (join "_" (t ∷ ts))) (ground (arith, h)) (
      append-is_key_text "_" (join "_" (t ∷ ts)) refl
        (join-is_key_text (t ∷ ts) (ground (arith, h))))

sanitize_segments-is_key_text :
    (parse_url : String → Result ConfigError Url) (segments : List String)
    → all is_key_text (sanitize_segments parse_url segments) ≡ true
unfolding sanitize_segments
sanitize_segments-is_key_text parse_url [] = refl
sanitize_segments-is_key_text parse_url (s ∷ ss) =
    elim (Option-cases (sanitize_server_key_component s)) [
      | inl e ↦
          rw (sanitize_segments, e) (ground (arith, sanitize_segments-is_key_text parse_url ss))
      | inr (part, e) ↦
          rw (sanitize_segments, e)
            (ground (
              arith,
              sanitize_segments-is_key_text parse_url ss,
              sanitize_server_key_component-is_key_text s e,
            ))
    ]

digit-is_key_text : (n : ℕ) → is_key_text (digit n) ≡ true
digit-is_key_text zero = refl
digit-is_key_text (suc zero) = refl
digit-is_key_text (suc (suc zero)) = refl
digit-is_key_text (suc (suc (suc zero))) = refl
digit-is_key_text (suc (suc (suc (suc zero)))) = refl
digit-is_key_text (suc (suc (suc (suc (suc zero))))) = refl
digit-is_key_text (suc (suc (suc (suc (suc (suc zero)))))) = refl
digit-is_key_text (suc (suc (suc (suc (suc (suc (suc zero))))))) = refl
digit-is_key_text (suc (suc (suc (suc (suc (suc (suc (suc zero)))))))) = refl
digit-is_key_text (suc (suc (suc (suc (suc (suc (suc (suc (suc n))))))))) = refl

decimal_fuel-is_key_text : (fuel n : ℕ) → is_key_text (decimal_fuel fuel n) ≡ true
unfolding decimal_fuel
decimal_fuel-is_key_text zero n = refl
decimal_fuel-is_key_text (suc fuel) n = ground (
  arith,
  digit-is_key_text n,
  append-is_key_text (decimal_fuel fuel (n / 10)) (digit (n % 10))
      (decimal_fuel-is_key_text fuel (n / 10)) (digit-is_key_text (n % 10)),
)

decimal-is_key_text : (n : ℕ) → is_key_text (decimal n) ≡ true
unfolding decimal
decimal-is_key_text n = decimal_fuel-is_key_text (n + 1) n

ok_or-ok : {A : Type 0} (o : Option A) (e : ConfigError) {a : A} → ok_or o e ≡ ok a → o ≡ some a
ok_or-ok none e h = absurd (err-ne-ok h)
ok_or-ok (some b) e h = ap some (ok-inj h)

host-is_key_text :
    (host : Option String) {part : String}
    → and_then host sanitize_server_key_component ≡ some part
    → is_key_text part ≡ true
host-is_key_text none h = absurd (ground (arith, h))
host-is_key_text (some raw) h = sanitize_server_key_component-is_key_text raw h

-- A server key has lower-case letters, digits and underscores only, whatever the URL: it is one
-- name of a directory, and no way out of its parent.
pub derive_server_key_safe :
    (parse_url : String → Result ConfigError Url) (base_url : String) {key : String}
    → derive_server_key parse_url base_url ≡ ok key
    → is_key_text key ≡ true
unfolding derive_server_key
derive_server_key_safe parse_url base_url h =
    let (canonical, h0, h1) = >>=-eq-ok (canonicalize_base_url parse_url base_url) _ h in
    let (parsed, h2, h3) = >>=-eq-ok (parse_url canonical) _ h1 in
    let (scheme, h4, h5) =
      >>=-eq-ok (ok_or (sanitize_server_key_component parsed.scheme) missing_scheme) _ h3 in
    let (host, h6, h7) =
      >>=-eq-ok (ok_or (and_then parsed.host_str sanitize_server_key_component) missing_host) _
        h5 in
    let (port, h8, h9) = >>=-eq-ok (effective_port parsed) _ h7 in
    let segments = sanitize_segments parse_url (get_or parsed.path_segments []) in
    ap is_key_text (sym (ok-inj h9))
    ∙ join-is_key_text (scheme ∷ host ∷ decimal port ∷ segments) (
        ground (
          arith,
          sanitize_server_key_component-is_key_text parsed.scheme (ok_or-ok _ missing_scheme h4),
          host-is_key_text parsed.host_str (ok_or-ok _ missing_host h6),
          decimal-is_key_text port,
          sanitize_segments-is_key_text parse_url (get_or parsed.path_segments []),
        ))
