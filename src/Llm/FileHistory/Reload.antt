-- ===== src/Llm/FileHistory/Reload.antt =====
-- A history that is opened again holds what was added to it.
use langchain_cpp.Base.{◌≡◌, refl, true, false, List, [], ◌∷◌, ◌++◌, arith, if◌then◌else◌}
use langchain_cpp.Base.Text.{codes, text_eq}
use langchain_cpp.Base.Json.{Json, RoundTrips}
use langchain_cpp.Base.Outcome.{ok, throws, traverse-map}
use langchain_cpp.Core.Message.{
  MessageRole, system, user, assistant, tool, to_api_role, ToolCall, ImageSourceType, url, base64,
  ImageContent, Message,
}
use langchain_cpp.Llm.FileHistory.{
  File, parse_role, source_type_text, call_to_json, image_to_json, message_to_json, call_from_json,
  image_from_json, message_from_json, save, saved, FileChatMessageHistory, open_history,
  add_message, clear,
}

parse_role-to_api_role : (r : MessageRole) → parse_role (to_api_role r) ≡ ok r
unfolding parse_role
parse_role-to_api_role system = refl
parse_role-to_api_role user = refl
parse_role-to_api_role assistant = refl
parse_role-to_api_role tool = refl

-- What a client does with a history.
pub data Operation (V : Type 0) : Type 0 where
  add : Message V → Operation V
  wipe : Operation V

abbrev pub conversation : {V : Type 0} → List (Operation V) → List (Message V) → List (Message V)
conversation [] messages = messages
conversation (add m ∷ ops) messages = conversation ops (messages ++ m ∷ [])
conversation (wipe ∷ ops) messages = conversation ops []

source_type_lem :
    (t : ImageSourceType)
    → (if text_eq (source_type_text t) (codes "base64") then base64 else url) ≡ t
source_type_lem url = refl
source_type_lem base64 = refl

module _ (J : Json) where
  open J use {Value, array, object, string, elements, dump_indented, parse}

  call_round_trip : (c : ToolCall Value) → call_from_json J (call_to_json J c) ≡ ok c
  unfolding call_from_json call_to_json
  call_round_trip c = simp (J.is_object-object, J.find-object, J.as_string-string)

  image_round_trip : (i : ImageContent) → image_from_json J (image_to_json J i) ≡ ok i
  unfolding image_from_json image_to_json
  image_round_trip i = simp (J.is_object-object, J.find-object, J.as_string-string, source_type_lem)

  -- A message is read back as it was written, in each of its fields.
  pub message_round_trip : (m : Message Value) → message_from_json J (message_to_json J m) ≡ ok m
  unfolding message_from_json message_to_json
  message_round_trip m =
      let calls = traverse-map (call_from_json J) (call_to_json J) m.tool_calls call_round_trip in
      let images = traverse-map (image_from_json J) (image_to_json J) m.images image_round_trip in
      simp (
        J.is_object-object, J.find-object, J.as_string-string, J.elements-array,
        parse_role-to_api_role, calls, images,
      )

  -- The file after each call, and what the messages are then.
  abbrev pub apply : Operation Value → FileChatMessageHistory J → FileChatMessageHistory J
  apply (add m) h = (add_message J m h).1
  apply wipe h = (clear J h).1

  abbrev pub apply_all :
      List (Operation Value) → FileChatMessageHistory J → FileChatMessageHistory J
  apply_all [] h = h
  apply_all (op ∷ ops) h = apply_all ops (apply op h)

  -- The file holds the messages: a history opened from it now has them.
  abbrev pub IsSaved : FileChatMessageHistory J → Type 0
  IsSaved h = open_history J h.file ≡ ok h

  module _ (r : RoundTrips J) where
    saved_lem :
        (messages : List (Message Value)) (file : File)
        → file.writable ≡ true
        → (saved J messages file).0 ≡ ok tt × IsSaved (saved J messages file).1
    unfolding saved save open_history
    saved_lem messages file h =
        let all =
          traverse-map (message_from_json J) (message_to_json J) messages message_round_trip in
        (rw h, simp (h, r.extract-dump_indented, J.elements-array, all))

    saved_writable :
        (messages : List (Message Value)) (file : File)
        → file.writable ≡ true
        → (saved J messages file).1.file.writable ≡ true
    unfolding saved save
    saved_writable messages file h = ground arith

    saved_messages :
        (messages : List (Message Value)) (file : File)
        → (saved J messages file).1.messages ≡ messages
    unfolding saved
    saved_messages messages file = refl

    -- Where the file can be written, whatever messages are added and however often the history is
    -- cleared, the object holds what was added since the last clearing, and a history opened from
    -- the file equals it.
    pub reload :
        (ops : List (Operation Value)) (h : FileChatMessageHistory J)
        → h.file.writable ≡ true
        → IsSaved h
        → IsSaved (apply_all ops h) × ((apply_all ops h).messages ≡ conversation ops h.messages)
    unfolding add_message clear
    reload [] h w s = (s, refl)
    reload (add m ∷ ops) h w s =
        let messages = h.messages ++ m ∷ [] in
        reload ops (saved J messages h.file).1 (saved_writable messages h.file w)
          (saved_lem messages h.file w).1
    reload (wipe ∷ ops) h w s =
        reload ops (saved J [] h.file).1 (saved_writable [] h.file w) (saved_lem [] h.file w).1

  -- Where the file cannot be written, adding a message throws and leaves the file alone, and the
  -- object keeps the message.
  pub add_message_unwritable :
      (m : Message Value) (h : FileChatMessageHistory J)
      → h.file.writable ≡ false
      → add_message J m h ≡ (
        throws (codes "FileChatMessageHistory: could not write to " ++ h.file.path),
        record h { messages = h.messages ++ m ∷ [] },
      )
  unfolding add_message saved save
  add_message_unwritable m h w = ground arith
