-- ===== src/Mcp/Protocol/RoundTrip.antt =====
-- What the client reads of a message that the server built.
use langchain_cpp.Base.{◌≡◌, refl, List, [], ◌∷◌, map}
use langchain_cpp.Base.Json.{Json}
use langchain_cpp.Base.Outcome.{Outcome, ok, throws, traverse}
use langchain_cpp.Tools.Tool.{Result, success, failure, Tool}
use langchain_cpp.Mcp.Protocol.{
  McpToolInfo, parse_tool, parse_tools_list_result, starts_with_text, first_text, error_text,
  content_value, parse_call_tool_result, tool_entry, build_tools_list_result, text_block,
  value_text, build_call_tool_result,
}

module _ (J : Json) where
  open J use {Value, string}

  -- What a client is to see of a call.
  abbrev pub seen : Result Value → Outcome Value
  seen (success v) = ok (string (value_text J v))
  seen (failure message) = throws message

  -- The client reads the text of the tool's value, or throws the tool's error.
  pub call_result_round_trip :
      (r : Result Value) → parse_call_tool_result J (build_call_tool_result J r) ≡ seen r
  unfolding parse_call_tool_result build_call_tool_result error_text content_value starts_with_text
      first_text text_block
  call_result_round_trip (success v) = simp (
    J.is_object-object, J.find-object, J.as_string-string, J.elements-array, J.size-array,
    J.is_array-array,
  )
  call_result_round_trip (failure m) = simp (
    J.is_object-object, J.find-object, J.as_string-string, J.elements-array, J.size-array,
    J.is_array-array, J.as_boolean-boolean,
  )

  module _ {W : Type 0} where
    -- What a client is to see of a tool.
    abbrev pub info : Tool Value W → McpToolInfo Value
    info t = record {
      name = t.name;
      description = t.description;
      input_schema = t.parameters_schema;
    }

    parse_tool-tool_entry : (t : Tool Value W) → parse_tool J (tool_entry J t) ≡ ok (info t)
    unfolding parse_tool tool_entry
    parse_tool-tool_entry t = simp (J.is_object-object, J.find-object, J.as_string-string)

    traverse-tools :
        (ts : List (Tool Value W))
        → traverse (parse_tool J) (map (tool_entry J) ts) ≡ ok (map info ts)
    unfolding traverse
    traverse-tools [] = refl
    traverse-tools (t ∷ ts) = rw (parse_tool-tool_entry t, traverse-tools ts)

    -- The client reads each of the server's tools, in order.
    pub tools_list_round_trip :
        (ts : List (Tool Value W))
        → parse_tools_list_result J (build_tools_list_result J ts) ≡ ok (map info ts)
    unfolding parse_tools_list_result build_tools_list_result
    tools_list_round_trip ts =
        simp (J.is_object-object, J.find-object, J.elements-array, traverse-tools ts)
