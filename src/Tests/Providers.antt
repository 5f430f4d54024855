-- ===== src/Tests/Providers.antt =====
-- The chat clients with sample services.
use langchain_cpp.Base.{
  ℕ, suc, ◌≡◌, refl, true, false, [], ◌∷◌, ◌++◌, Option, none, some, if◌then◌else◌, inl, inr,
}
use langchain_cpp.Base.Text.{Text, codes, text_eq, break_at, strip_prefix}
use langchain_cpp.Base.Http.{Response, Send}
use langchain_cpp.Base.Json.{natural}
use langchain_cpp.Base.Json.Sample.{Tree, sample, sample-RoundTrips}
use langchain_cpp.Base.Outcome.{ok, ◌>>=◌}
use langchain_cpp.Core.Message.{assistant_tool_calls, tool_result}
use langchain_cpp.Llm.ChatModel.{delta_chunk}
use langchain_cpp.Providers.OpenAi.Stream.{Parser, feed, update_call}
use langchain_cpp.Providers.OpenAi.Chat.{OpenAiConfig, OpenAiChat, Transfer, invoke, stream}
use langchain_cpp.Providers.OpenAi.Chat.Replies.{completion, invoke_answered}
use langchain_cpp.Providers.OpenAi.Chat.Streamed.{Logged, keep, stream_answered}
use langchain_cpp.Providers.OpenAi.Presets.{preset}
use langchain_cpp.Providers.OpenAi.Presets.Keys.{with_key, preset_lem}
use langchain_cpp.Providers.Anthropic.{message_to_anthropic_json, parse_anthropic_message}
use langchain_cpp.Providers.Anthropic.RoundTrip.{anthropic_round_trip}
use langchain_cpp.Providers.Gemini.{messages_to_gemini_request}
use langchain_cpp.Providers.Gemini.Correlation.{named_result, then_add, gemini_tool_result}
use langchain_cpp.Mcp.Sse.{drop_return}
use langchain_cpp.Tests.Samples.{question, asks, echo_call}

abbrev config : OpenAiConfig Tree
config = record {
  model = codes "m";
  api_key = [];
  base_url = codes "u";
  temperature = sample.null;
  max_tokens = none;
}

abbrev chat : (W : Type 0) → OpenAiChat Tree W
chat W = record { config = config; tools = none }

abbrev answer : Response
answer = record {
  status_code = 200;
  body = sample.dump (completion sample (assistant_tool_calls (echo_call ∷ []) (codes "ok")));
  header = λ name. none;
}

abbrev post : Send ℕ
post url headers body w = (answer, suc w)

abbrev transfer : Transfer ℕ
transfer url headers body w = (([], 200), suc w)

invoke_answered_example :
    invoke sample post transfer (chat ℕ) question 3
    ≡ (ok (assistant_tool_calls (echo_call ∷ []) (codes "ok")), 4)
invoke_answered_example =
    invoke_answered sample sample-RoundTrips post transfer (chat ℕ) question (echo_call ∷ [])
      (codes "ok") 3 4 answer refl refl refl

-- A streamed piece of text, in the sample's JSON.
abbrev piece : Text
piece =
    let delta : Tree = sample.object ((codes "content", sample.string (codes "hi")) ∷ []) in
    let choice : Tree = sample.object ((codes "delta", delta) ∷ []) in
    sample.dump (sample.object ((codes "choices", sample.array (choice ∷ [])) ∷ []))

-- A streamed tool call, in one piece.
abbrev call_piece : Text
call_piece =
    let function : Tree = sample.object (
      (codes "name", sample.string (codes "echo"))
      ∷ (codes "arguments", sample.string (sample.dump sample.null))
      ∷ []) in
    let call : Tree =
      sample.object
        ((codes "id", sample.string (codes "c1")) ∷ (codes "function", function) ∷ []) in
    let delta : Tree = sample.object ((codes "tool_calls", sample.array (call ∷ [])) ∷ []) in
    let choice : Tree = sample.object ((codes "delta", delta) ∷ []) in
    sample.dump (sample.object ((codes "choices", sample.array (choice ∷ [])) ∷ []))

abbrev first_chunk : Text
first_chunk = codes "data: " ++ (piece ++ (codes "\ndata: " ++ (call_piece ++ codes "\nda")))

abbrev second_chunk : Text
second_chunk = codes "ta: [DONE]\n"

abbrev log_post : Send (Logged Tree ℕ)
log_post url headers body s = (answer, s)

abbrev log_transfer : Transfer (Logged Tree ℕ)
log_transfer url headers body s =
    ((first_chunk ∷ second_chunk ∷ [], 200), record { network = 1; log = [] })

abbrev read : Parser
read = record {
  buffer = [];
  progress = record {
    text = codes "hi";
    done = true;
    tool_calls =
        (
          natural 0,
          record { id = codes "c1"; name = codes "echo"; arguments = sample.dump sample.null },
        )
        ∷ [];
    deltas = codes "hi" ∷ [];
  };
}

abbrev start : Logged Tree ℕ
start = record { network = 0; log = [] }

stream_answered_example :
    stream sample log_post log_transfer (chat (Logged Tree ℕ)) question keep start ≡ (
      ok tt,
      record {
        network = 1;
        log =
            delta_chunk (codes "hi")
            ∷ record {
              delta = [];
              is_final = true;
              message = assistant_tool_calls (echo_call ∷ []) (codes "hi");
            }
            ∷ [];
      },
    )
unfolding feed break_at strip_prefix drop_return update_call
stream_answered_example =
    stream_answered sample log_post log_transfer (chat (Logged Tree ℕ)) question start 1 first_chunk
      (second_chunk ∷ []) false read (echo_call ∷ []) refl refl
      (refl, refl, inr (inl (refl, refl)), tt)

abbrev env : Text → Option Text
env name = if text_eq name (codes "GROQ_API_KEY") then some [] else some (codes "sk")

preset_lem_example :
    preset {V = Tree} {W = ℕ} env (codes "GROQ_API_KEY") (codes "GroqChat") config
    ≡ with_key config (ok (codes "sk"))
preset_lem_example = preset_lem env (codes "GROQ_API_KEY") (codes "GroqChat") config

anthropic_round_trip_example :
    (message_to_anthropic_json sample (assistant_tool_calls (echo_call ∷ []) (codes "ok"))
      >>= parse_anthropic_message sample)
    ≡ ok (assistant_tool_calls (echo_call ∷ []) (codes "ok"))
anthropic_round_trip_example = anthropic_round_trip sample echo_call [] (codes "ok")

gemini_tool_result_example :
    messages_to_gemini_request sample (asks ∷ tool_result (codes "c1") (codes "42") ∷ [])
    ≡ then_add sample
        (named_result sample (codes "echo") (sample.string (codes "42")))
        (messages_to_gemini_request sample (asks ∷ []))
gemini_tool_result_example =
    gemini_tool_result sample (asks ∷ []) (codes "c1") (codes "42") (sample.string (codes "42"))
      (inr (codes "parse error", refl, refl, refl))
