-- ===== src/Providers/OpenAi/Chat.antt =====
-- src/providers/openai/openai_chat.cpp, over parameters for cpr::Post and for a session whose write
-- callback gets the body in chunks. A temperature is the JSON number that holds the double.
pub mod Replies
pub mod Streamed
use langchain_cpp.Base.{
  ℕ, Bool, true, false, not, List, [], ◌∷◌, ◌++◌, map, Option, none, some, ◌==◌, if◌then◌else◌,
  is_empty, length, drop,
}
use langchain_cpp.Base.Text.{Text, codes}
use langchain_cpp.Base.Decimal.{to_string}
use langchain_cpp.Base.Dict.{Dict}
use langchain_cpp.Base.Http.{Response, Send}
use langchain_cpp.Base.Json.{Json, Integer, natural}
use langchain_cpp.Base.Outcome.{Outcome, ok, throws, ◌>>=◌}
use langchain_cpp.Base.Exec.{Exec, pure, raise, lift, continue}
use langchain_cpp.Core.Message.{Message}
use langchain_cpp.Llm.ChatModel.{ChatModel, StreamChunk, StreamCallback, deliver, delta_chunk}
use langchain_cpp.Tools.Registry.{ToolRegistry, to_openai_tools_json}
use langchain_cpp.Providers.Config.{resolve_from, failed_request, tools_member, integer_member}
use langchain_cpp.Providers.OpenAi.{message_to_openai_json, parse_openai_message}
use langchain_cpp.Providers.OpenAi.Stream.{Parser, new_parser, feed, finish, member}

pub record OpenAiConfig (V : Type 0) : Type 0 where
  pub model : Text
  pub api_key : Text
  pub base_url : Text
  pub temperature : V
  pub max_tokens : Option Integer

pub record OpenAiChat (V W : Type 0) : Type 0 where
  pub config : OpenAiConfig V
  pub tools : Option (ToolRegistry V W)

-- `env` is what getenv finds.
abbrev pub resolve_api_key : Option Text → Text → Outcome Text
resolve_api_key env =
    resolve_from env (codes "OpenAIChat: no api_key provided and OPENAI_API_KEY is not set")

-- The constructor.
abbrev pub openai_chat : {V W : Type 0} → Option Text → OpenAiConfig V → Outcome (OpenAiChat V W)
openai_chat env config = resolve_api_key env config.api_key >>= λ key.
    ok (record { config = record config { api_key = key }; tools = none })

abbrev pub bind_tools : {V W : Type 0} → OpenAiChat V W → ToolRegistry V W → OpenAiChat V W
bind_tools chat registry = record chat { tools = some registry }

-- session.Post(): the chunks that the write callback is given, if it takes them all, and the status
-- code. What the server does comes before what the callback does.
abbrev pub Transfer : Type 0 → Type 0
Transfer W = Text → Dict Text → Text → W → (List Text × ℕ) × W

module _ (J : Json) where
  open J use {Value, null, array, object, string, boolean, elements, is_array, is_null, dump, parse}

  abbrev first_or_null : List Value → Value
  first_or_null [] = null
  first_or_null (v ∷ vs) = v

  -- v[0] on a value that is not const, which holds null where the element is not there
  unfoldable pub element : Value → Outcome Value
  element v =
      if is_array v
      then ok (first_or_null (elements v))
      else if is_null v
      then ok null
      else throws (J.type_message v)

  -- parsed["choices"][0]["message"]
  unfoldable pub reply_message : Value → Outcome (Message Value)
  unfolding element
  reply_message parsed =
      member J (codes "choices") parsed
      >>= element
      >>= member J (codes "message")
      >>= parse_openai_message J

  -- `name` is the client's, as its exceptions have it.
  unfoldable pub reply : Text → Response → Outcome (Message Value)
  unfolding reply_message
  reply name response =
      if not (response.status_code == 200)
      then throws (failed_request (name ++ codes ": request") response)
      else (parse response.body >>= reply_message)

  abbrev pub stream_member : Bool → Dict Value
  stream_member streaming = if streaming then (codes "stream", boolean true) ∷ [] else []

  unfoldable pub request_body :
      {W : Type 0} → Bool → OpenAiChat Value W → List (Message Value) → Value
  request_body streaming chat messages = object (
      (codes "model", string chat.config.model)
      ∷ (codes "messages", array (map (message_to_openai_json J) messages))
      ∷ (codes "temperature", chat.config.temperature)
      ∷ (stream_member streaming
          ++ (integer_member J (codes "max_tokens") chat.config.max_tokens
              ++ tools_member J chat.tools (to_openai_tools_json J))))

  abbrev pub headers : {W : Type 0} → OpenAiChat Value W → Dict Text
  headers chat =
      (codes "Authorization", codes "Bearer " ++ chat.config.api_key)
      ∷ (codes "Content-Type", codes "application/json")
      ∷ []

  module _ {W : Type 0} (on_chunk : StreamCallback Value W) where
    -- The chunks that are left, while the write callback returns true.
    abbrev pub write_on : Outcome Bool → Parser → (Parser → Exec W Parser) → Exec W Parser
    write_on (throws e) p next w = (throws e, w)
    write_on (ok false) p next w = (ok p, w)
    write_on (ok true) p next w = next p w

    -- One call of the write callback: the deltas that the chunk adds go to on_chunk.
    abbrev pub write_chunk :
        Outcome Bool × Parser → Parser → (Parser → Exec W Parser) → Exec W Parser
    write_chunk (r, p') p next w =
        let (sent, w') =
          deliver (map delta_chunk (drop (length p.progress.deltas) p'.progress.deltas)) on_chunk
            w in
        continue sent (λ u. write_on r p' next) w'

    unfoldable pub write_chunks : List Text → Parser → Exec W Parser
    write_chunks [] p = pure p
    write_chunks (chunk ∷ chunks) p = write_chunk (feed J chunk p) p (write_chunks chunks)

    -- What follows session.Post().
    abbrev pub end_stream : Text → ℕ → Parser → Exec W (Unit {0})
    end_stream name status_code p =
        if not (status_code == 200)
        then raise (
            name
            ++ (codes ": streaming request failed (HTTP " ++ (to_string status_code ++ codes ")")))
        else continue (finish J p.progress)
            (λ message. on_chunk (record { delta = []; is_final = true; message = message }))

    unfoldable pub receive : Text → (List Text × ℕ) × W → Outcome (Unit {0}) × W
    unfolding write_chunks
    receive name ((chunks, status_code), w) =
        let (written, w') = write_chunks chunks new_parser w in
        continue written (end_stream name status_code) w'

  module _ {W : Type 0} (post : Send W) (transfer : Transfer W) (chat : OpenAiChat Value W) where
    -- OpenAIChat::invoke
    unfoldable pub invoke : List (Message Value) → Exec W (Message Value)
    unfolding reply request_body
    invoke messages w =
        let (response, w') =
          post (chat.config.base_url ++ codes "/chat/completions") (headers chat)
            (dump (request_body false chat messages)) w in
        (reply (codes "OpenAIChat") response, w')

    -- OpenAIChat::stream
    unfoldable pub stream : List (Message Value) → StreamCallback Value W → Exec W (Unit {0})
    unfolding receive request_body
    stream messages on_chunk w = receive on_chunk (codes "OpenAIChat") (
        transfer (chat.config.base_url ++ codes "/chat/completions") (headers chat)
          (dump (request_body true chat messages)) w)

    abbrev pub chat_model : ChatModel Value W
    chat_model = record { model_name = chat.config.model; invoke = invoke; stream = stream }
