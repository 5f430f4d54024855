-- ===== src/Tests/Llm.antt =====
-- The caches and histories with the sample model.
use langchain_cpp.Base.{ℕ, ◌≡◌, refl, true, false, List, [], ◌∷◌, none, map, ◌↔◌}
use langchain_cpp.Base.Text.{Text, codes}
use langchain_cpp.Base.Dict.{insert}
use langchain_cpp.Base.Json.Sample.{Tree, sample, sample-RoundTrips}
use langchain_cpp.Base.Outcome.{ok}
use langchain_cpp.Core.Message.{Message, user_message}
use langchain_cpp.Llm.Caching.{InMemory, make_cache_key, key_of, invoke}
use langchain_cpp.Llm.Caching.Key.{message_key, make_cache_key_iff}
use langchain_cpp.Llm.Caching.Replay.{cached, invoke_miss, invoke_again}
use langchain_cpp.Llm.FileHistory.{File, FileChatMessageHistory, open_history, load}
use langchain_cpp.Llm.FileHistory.Reload.{Operation, add, wipe, apply_all, IsSaved, reload}
use langchain_cpp.Providers.OpenAi.Stream.{feed, new_parser}
use langchain_cpp.Providers.OpenAi.Stream.Chunks.{view, feed_all, feed_all_lem}
use langchain_cpp.Tests.Samples.{model, question, asks, answers_it}

abbrev hi : Message Tree
hi = user_message (codes "hi")

make_cache_key_iff_example :
    (make_cache_key sample (codes "m") [] question ≡ make_cache_key sample (codes "m") [] (hi ∷ []))
    ↔ ((codes "m" ≡ codes "m")
        × (codes "" ≡ codes "")
        × (map message_key question ≡ map message_key (hi ∷ [])))
make_cache_key_iff_example =
    make_cache_key_iff sample sample-RoundTrips (codes "m") (codes "m") [] [] question (hi ∷ [])

abbrev key : Text
key = key_of sample (cached model []) question

abbrev empty : InMemory Tree ℕ
empty = record { entries = []; rest = 0 }

abbrev filled : InMemory Tree ℕ
filled = record { entries = (key, asks) ∷ []; rest = 1 }

invoke_again_example : invoke sample (cached model []) question filled ≡ (ok asks, filled)
unfolding insert
invoke_again_example =
    invoke_again sample model [] question empty filled asks
      (invoke_miss sample model [] question [] 0 1 (ok asks) refl refl)

abbrev file : File
file = record { path = codes "h.json"; text = none; writable = true }

abbrev new_history : FileChatMessageHistory sample
new_history = record { messages = []; file = file }

abbrev turns : List (Operation Tree)
turns = add hi ∷ wipe ∷ add answers_it ∷ []

reload_example :
    IsSaved sample (apply_all sample turns new_history)
    × ((apply_all sample turns new_history).messages ≡ answers_it ∷ [])
unfolding open_history load
reload_example = reload sample sample-RoundTrips turns new_history refl refl

abbrev locked : FileChatMessageHistory sample
locked = record { messages = []; file = record file { writable = false } }

feed_all_lem_example :
    view sample (feed_all sample (codes "da") (codes "ta: [DO" ∷ codes "NE]\n" ∷ []) new_parser)
    ≡ view sample (feed sample (codes "data: [DONE]\n") new_parser)
feed_all_lem_example =
    feed_all_lem sample (codes "da") (codes "ta: [DO" ∷ codes "NE]\n" ∷ []) new_parser
