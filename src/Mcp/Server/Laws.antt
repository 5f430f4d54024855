-- ===== src/Mcp/Server/Laws.antt =====
-- When the server answers, and when an exception leaves it.
use langchain_cpp.Base.{◌≡◌, refl, true, Option, none, some, arith, if_both}
use langchain_cpp.Base.Text.{Text, codes, text_eq}
use langchain_cpp.Base.Json.{Json}
use langchain_cpp.Base.Outcome.{Outcome, ok, throws}
use langchain_cpp.Tools.Registry.{ToolRegistry, get}
use langchain_cpp.Mcp.JsonRpc.{
  JsonRpcRequest, is_request, parse_request, build_success_response, build_error_response,
}
use langchain_cpp.Mcp.Server.{
  caught_response, call_arguments, call_tool, tools_call, dispatch, handle_message, respond,
  internal_error, call_response,
}

module _ (J : Json) {W : Type 0} (registry : ToolRegistry J.Value W) where
  open J use {Value, parse, find, object}

  -- The response carries the id.
  abbrev Carries : Value → Value → Type 0
  Carries id v = find (codes "id") v ≡ some id

  success-Carries : (id v : Value) → Carries id (build_success_response J id v)
  unfolding build_success_response
  success-Carries id v = rw J.find-object

  error-Carries : (id : Value) (code : _) (e : Text) → Carries id (build_error_response J id code e)
  unfolding build_error_response
  error-Carries id code e = rw J.find-object

  call_response-Carries :
      (id : Value) (r : Outcome _) → Carries id (caught_response J id (call_response J id r))
  call_response-Carries id (ok r) = success-Carries id _
  call_response-Carries id (throws e) = error-Carries id internal_error e

  call_tool-Carries :
      (id : Value) (name : Text) (arguments : Value) (t : Option _) (w : W)
      → Carries id (caught_response J id (call_tool J registry id name arguments t w).0)
  call_tool-Carries id name arguments none w = error-Carries id _ _
  call_tool-Carries id name arguments (some t) w = call_response-Carries id (t.call arguments w).0

  tools_call-Carries :
      (id : Value) (a : Outcome (Text × Value)) (w : W)
      → Carries id (caught_response J id (tools_call J registry id a w).0)
  tools_call-Carries id (ok (name, arguments)) w =
      call_tool-Carries id name arguments (get name registry) w
  tools_call-Carries id (throws e) w = error-Carries id internal_error e

  abbrev Safe : Value → Outcome Value × W → Type 0
  Safe id o = Carries id (caught_response J id o.0)

  dispatch-Carries :
      (request : JsonRpcRequest Value) (w : W)
      → Carries request.id (caught_response J request.id (dispatch J registry request w).0)
  unfolding dispatch
  dispatch-Carries request w =
      if_both (Safe request.id) (text_eq request.method (codes "initialize")) _ _
        (success-Carries request.id _)
        (if_both (Safe request.id) (text_eq request.method (codes "tools/list")) _ _
          (success-Carries request.id _)
          (if_both (Safe request.id) (text_eq request.method (codes "tools/call")) _ _
            (tools_call-Carries request.id (call_arguments J request.params) w)
            (error-Carries request.id _ _)))

  respond-Carries :
      (request : JsonRpcRequest Value) (w : W)
      → (response : Value) × ((respond J registry (ok request) w).0 ≡ ok (some response))
        × Carries request.id response
  unfolding dispatch
  respond-Carries request w = (
    caught_response J request.id (dispatch J registry request w).0,
    refl,
    dispatch-Carries request w,
  )

  -- A message whose parsing as a request succeeds is answered, whatever the method, the parameters
  -- and the tool do, by a response that carries the request's id.
  pub handle_message_answers :
      (message : Value) (request : JsonRpcRequest Value) (w : W)
      → is_request J message ≡ true
      → parse_request J message ≡ ok request
      → (response : Value) × ((handle_message J registry message w).0 ≡ ok (some response))
        × Carries request.id response
  unfolding handle_message dispatch
  handle_message_answers message request w h e = rw (h, e) (respond-Carries request w)

  parse_request_throws :
      (message id method : Value)
      → J.is_object message ≡ true
      → find (codes "id") message ≡ some id
      → find (codes "method") message ≡ some method
      → J.as_string method ≡ none
      → parse_request J message ≡ throws (J.type_message method)
  unfolding parse_request
  parse_request_throws message id method o h m s = simp (o, h, m, s)

  is_request_lem :
      (message : Value) {id method : Value}
      → find (codes "id") message ≡ some id
      → find (codes "method") message ≡ some method
      → is_request J message ≡ true
  is_request_lem message h m = ground (arith, h, m)

  -- A request whose method is not a string is not answered: the exception leaves handle_message.
  pub handle_message_throws :
      (message id method : Value) (w : W)
      → J.is_object message ≡ true
      → find (codes "id") message ≡ some id
      → find (codes "method") message ≡ some method
      → J.as_string method ≡ none
      → handle_message J registry message w ≡ (throws (J.type_message method), w)
  unfolding handle_message
  handle_message_throws message id method w o h m s =
      simp (is_request_lem message h m, parse_request_throws message id method o h m s)

  -- A line that parse reads or refuses by a parse_error, and, where it holds a request, one that can be
  -- parsed.
  abbrev pub IsServable : Text → Type 0
  IsServable line =
      ((e : Text) → parse line ≡ throws e → J.is_parse_error e ≡ true)
      × ((message : Value)
          → parse line ≡ ok message
          → is_request J message ≡ true
          → (request : JsonRpcRequest Value) × (parse_request J message ≡ ok request))

  -- Each response to what parse reads holds texts that dump() takes.
  abbrev pub IsPrintable : Type 0
  IsPrintable =
      (line : Text) (message response : Value) (w : W)
      → parse line ≡ ok message
      → (handle_message J registry message w).0 ≡ ok (some response)
      → J.is_printable response ≡ true

  Returns : {A : Type 0} → Outcome A × W → Type 0
  Returns o = (a : _) × (o.0 ≡ ok a)
