-- ===== src/Subspace/Frames.antt =====
-- src/subspace/client.rs: the frames of the socket, and the kinds of errors.
use subspace_daemon.Base.{
  Bool, List, Option, Result, String, [], and_then, append_text, decimal, err, false, get_or,
  has_text, if◌then◌else◌, is_empty, is_empty_text, join, map, none, ok, option_map, or_else, some,
  trim, ℕ, ◌==◌, ◌||◌, ◌∷◌,
}
use subspace_daemon.Base.Json.{Json, get, as_str, as_num, as_array}
use subspace_daemon.Attention.Evaluate.{MessageEmbedding}
use subspace_daemon.Config.Url.{to_ascii_lowercase}

-- `tungstenite::Message`, with what `String::from_utf8` makes of the bytes
pub data Message : Type 0 where
  text : String → Message
  binary : Option String → Message
  close : Option (ℕ × String) → Message
  ping pong frame : Message

pub data WsFrame : Type 0 where
  body : String → WsFrame
  ignore : WsFrame
  closed : Option ℕ → String → WsFrame

unfoldable pub ws_text : Message → Result String WsFrame
ws_text (text t) = ok (body t)
ws_text (binary (some t)) = ok (body t)
ws_text (binary none) = err "non-utf8 websocket message"
ws_text (close none) = ok (closed none "")
ws_text (close (some (code, reason))) = ok (closed (some code) reason)
ws_text ping = ok ignore
ws_text pong = ok ignore
ws_text frame = ok ignore

-- the text of an error with the code and the reason of a close frame; `quote` is `{:?}`
unfoldable pub closed_text : (String → String) → String → Option ℕ → String → String
unfolding decimal
closed_text quote what code reason = join "" (
    what
    ∷ elim code [ none ↦ "" | some c ↦ append_text " code=" (decimal c) ]
    ∷ (if is_empty_text reason then "" else append_text " reason=" (quote reason))
    ∷ [])

unfoldable pub reconnect_error_kind : String → String
unfolding to_ascii_lowercase
reconnect_error_kind error =
    let message = to_ascii_lowercase error in
    if has_text message "connection refused"
    then "connection_refused"
    else if has_text message "timed out" || has_text message "timeout"
    then "timeout"
    else if has_text message "join failed"
    then "join_failed"
    else if has_text message "auth"
    then "auth_failed"
    else if has_text message "websocket connect"
    then "websocket_connect_failed"
    else "transport_failed"

abbrev filter_map : {A B : Type 0} → (A → Option B) → List A → List B
filter_map f [] = []
filter_map f (x ∷ xs) = elim (f x) [ none ↦ filter_map f xs | some y ↦ y ∷ filter_map f xs ]

module _ {N : Type 0} where
  -- `value.get(key).and_then(Value::as_str)`
  unfoldable pub text_of : String → Json N → Option String
  unfolding get as_str
  text_of key value = and_then (get key value) as_str

  -- `value.get(key) == Some(&Value::String(text))`
  unfoldable pub has_member : String → String → Json N → Bool
  unfolding text_of
  has_member key wanted value = get_or (option_map (λ t. t == wanted) (text_of key value)) false

  -- `to_f32` is the cast of `as_f64`.
  module _ {F : Type 0} (to_f32 : N → F) where
    unfoldable pub parse_embedding : Json N → Option (MessageEmbedding F)
    unfolding text_of as_num as_array get as_str trim
    parse_embedding value =
        and_then (and_then (or_else (get "space_id" value) (get "spaceId" value)) as_str) (λ raw.
          and_then (and_then (get "vector" value) as_array) (λ entries.
            let space_id = trim raw in
            let vector = map to_f32 (filter_map as_num entries) in
            if is_empty_text space_id || is_empty vector
            then none
            else some (record { space_id = space_id; vector = vector })))

    unfoldable pub parse_message_embeddings : Json N → List (MessageEmbedding F)
    unfolding get as_array parse_embedding
    parse_message_embeddings payload =
        let supplied =
          or_else (get "supplied_embeddings" payload)
            (or_else (get "suppliedEmbeddings" payload) (get "embeddings" payload)) in
        filter_map parse_embedding (get_or (and_then supplied as_array) [])
