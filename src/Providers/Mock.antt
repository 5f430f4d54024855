-- ===== src/Providers/Mock.antt =====
-- src/providers/mock/mock_chat.cpp and include/langchain/providers/mock/mock_chat.hpp. A fixed
-- response is a function that returns it. The world is the object's next_scripted_ with the world `W`
-- of the function and the callback.
pub mod Script
use langchain_cpp.Base.{
  ℕ, suc, Bool, true, false, not, ◌||◌, ◌-◌, List, [], ◌∷◌, ◌++◌, Option, none, some, ◌==◌, min,
  if◌then◌else◌, is_empty, length, get_elem?,
}
use langchain_cpp.Base.Text.{Text, codes}
use langchain_cpp.Base.Exec.{Exec, pure, ◌>>=◌, ◌>>◌}
use langchain_cpp.Core.Message.{Message, plain, system, assistant_message}
use langchain_cpp.Llm.ChatModel.{ChatModel, StreamChunk, StreamCallback, deliver, delta_chunk}

pub record MockChat (V W : Type 0) : Type 0 where
  pub fn : List (Message V) → Exec W Text
  pub scripted_responses : List (Message V)

pub record MockState (W : Type 0) : Type 0 where
  pub next_scripted : ℕ
  pub rest : W

-- MockChat(fixed_response)
abbrev pub fixed_mock : {V W : Type 0} → Text → MockChat V W
fixed_mock response = record { fn = λ messages. pure response; scripted_responses = [] }

-- whitespace in the "C" locale, which operator>> ends a word at
abbrev pub is_space : ℕ → Bool
is_space c = c == 32 || c == 9 || c == 10 || c == 11 || c == 12 || c == 13

unfoldable pub word_onto : ℕ → List Text → Bool → List Text
word_onto c [] inside = (c ∷ []) ∷ []
word_onto c (word ∷ words) true = (c ∷ word) ∷ words
word_onto c (word ∷ words) false = (c ∷ []) ∷ word ∷ words

-- Whether the text goes on with a byte of a word.
abbrev pub starts_word : Text → Bool
starts_word [] = false
starts_word (c ∷ s) = not (is_space c)

-- while (stream >> word)
unfoldable pub words_of : Text → List Text
unfolding word_onto
words_of [] = []
words_of (c ∷ s) =
    let rest = words_of s in if is_space c then rest else word_onto c rest (starts_word s)

-- The chunks of the words but the first.
unfoldable pub more_chunks : {V : Type 0} → List Text → List (StreamChunk V)
more_chunks [] = []
more_chunks (word ∷ words) = delta_chunk (32 ∷ word) ∷ more_chunks words

unfoldable pub word_chunks : {V : Type 0} → List Text → List (StreamChunk V)
unfolding more_chunks
word_chunks [] = []
word_chunks (word ∷ words) = delta_chunk word ∷ more_chunks words

abbrev pub with_rest : {W A : Type 0} → Exec W A → Exec (MockState W) A
with_rest f s = let (r, w) = f s.rest in (r, record s { rest = w })

module _ {V W : Type 0} where
  abbrev pub scripted_at : Option (Message V) → Exec (MockState W) (Message V)
  scripted_at none s = pure (plain system []) s
  scripted_at (some m) s = pure m s

  -- MockChat::invoke
  unfoldable pub invoke : MockChat V W → List (Message V) → Exec (MockState W) (Message V)
  invoke mock messages s =
      let script = mock.scripted_responses in
      if not (is_empty script)
      then scripted_at (get_elem? script (min s.next_scripted (length script - 1)))
          (record s { next_scripted = suc s.next_scripted })
      else with_rest (mock.fn messages >>= λ text. pure (assistant_message text)) s

  -- MockChat::stream
  unfoldable pub stream :
      MockChat V W
      → List (Message V)
      → StreamCallback V (MockState W)
      → Exec (MockState W) (Unit {0})
  unfolding word_chunks words_of
  stream mock messages on_chunk = do
    result ← invoke mock messages
    deliver (if not (is_empty result.content) then word_chunks (words_of result.content) else [])
          on_chunk
        >> on_chunk (record { delta = []; is_final = true; message = result })

  abbrev pub mock_chat : MockChat V W → ChatModel V (MockState W)
  mock_chat mock = record {
    model_name = codes "mock-chat";
    invoke = invoke mock;
    stream = stream mock;
  }

  -- MockChat::bind_tools: a copy of the object, which counts its responses on from there
  abbrev pub bind_tools : {R : Type 0} → MockChat V W → R → MockChat V W
  bind_tools mock registry = mock
