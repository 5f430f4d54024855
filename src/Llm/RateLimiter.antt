-- ===== src/Llm/RateLimiter.antt =====
-- src/llm/rate_limiter.cpp and src/llm/rate_limited_chat_model.cpp. The double numbers are a parameter,
-- a time is the number of its seconds, and the clock is the list of what now() gives in turn. The
-- mutex is not modelled: the calls are in sequence.
pub mod Bucket
use langchain_cpp.Base.{Bool, not, List, [], ◌∷◌, Option, none, some, if◌then◌else◌}
use langchain_cpp.Base.Text.{Text}
use langchain_cpp.Base.Outcome.{ok}
use langchain_cpp.Base.Exec.{Exec, ◌>>◌}
use langchain_cpp.Core.Message.{Message}
use langchain_cpp.Llm.ChatModel.{ChatModel, StreamCallback}

-- double
pub record Numbers : Type 1 where
  pub Number : Type 0
  pub one : Number
  pub add : Number → Number → Number
  pub subtract : Number → Number → Number
  pub multiply : Number → Number → Number
  pub divide : Number → Number → Number
  -- a < b, a >= b
  pub less : Number → Number → Bool
  pub reaches : Number → Number → Bool

pub record RateLimiter (N : Type 0) : Type 0 where
  pub requests_per_second : N
  pub max_bucket_size : N
  pub available_tokens : N
  pub last_refill : N

-- What acquire leaves: the limiter, the clock, and how long it slept each time.
pub record Acquired (N : Type 0) : Type 0 where
  pub limiter : RateLimiter N
  pub clock : List N
  pub sleeps : List N

abbrev pub slept : {N : Type 0} → N → Option (Acquired N) → Option (Acquired N)
slept seconds none = none
slept seconds (some a) = some (record a { sleeps = seconds ∷ a.sleeps })

module _ (Ns : Numbers) where
  open Ns use {Number, one, add, subtract, multiply, divide, less, reaches}

  -- The constructor, at the time `now`.
  abbrev pub new_rate_limiter : Number → Number → Number → RateLimiter Number
  new_rate_limiter requests_per_second max_bucket_size now = record {
    requests_per_second = requests_per_second;
    max_bucket_size = max_bucket_size;
    available_tokens = max_bucket_size;
    last_refill = now;
  }

  -- std::min
  abbrev pub minimum : Number → Number → Number
  minimum a b = if less b a then b else a

  unfoldable pub refill : Number → RateLimiter Number → RateLimiter Number
  refill now l =
      let elapsed_seconds = subtract now l.last_refill in
      record l {
        available_tokens =
            minimum l.max_bucket_size
              (add l.available_tokens (multiply elapsed_seconds l.requests_per_second));
        last_refill = now;
      }

  unfoldable pub take_token : RateLimiter Number → RateLimiter Number
  take_token l = record l { available_tokens = subtract l.available_tokens one }

  unfoldable pub wait_seconds : RateLimiter Number → Number
  wait_seconds l = divide (subtract one l.available_tokens) l.requests_per_second

  -- RateLimiter::acquire; none where the clock ends before it returns
  unfoldable pub acquire : List Number → RateLimiter Number → Option (Acquired Number)
  unfolding refill take_token wait_seconds
  acquire [] l = none
  acquire (now ∷ clock) l =
      let refilled = refill now l in
      let rest = acquire clock refilled in
      if reaches refilled.available_tokens one
      then some (record { limiter = take_token refilled; clock = clock; sleeps = [] })
      else slept (wait_seconds refilled) rest

-- A model behind a limiter; `acquire_token` is acquire, which returns when there is a token.
pub record RateLimitedChatModel (V W : Type 0) : Type 0 where
  pub inner : ChatModel V W
  pub acquire_token : W → W

abbrev pub acquired : {W : Type 0} → (W → W) → Exec W (Unit {0})
acquired acquire_token w = (ok tt, acquire_token w)

module _ {V W : Type 0} where
  -- RateLimitedChatModel::invoke
  unfoldable pub invoke : RateLimitedChatModel V W → List (Message V) → Exec W (Message V)
  invoke m messages = acquired m.acquire_token >> m.inner.invoke messages

  -- RateLimitedChatModel::stream
  unfoldable pub stream :
      RateLimitedChatModel V W → List (Message V) → StreamCallback V W → Exec W (Unit {0})
  stream m messages on_chunk = acquired m.acquire_token >> m.inner.stream messages on_chunk

  -- RateLimitedChatModel::bind_tools, where `bound` is what the inner model's returns
  abbrev pub bind_tools : RateLimitedChatModel V W → ChatModel V W → RateLimitedChatModel V W
  bind_tools m bound = record { inner = bound; acquire_token = m.acquire_token }

  abbrev pub rate_limited : RateLimitedChatModel V W → ChatModel V W
  rate_limited m = record { model_name = m.inner.model_name; invoke = invoke m; stream = stream m }
