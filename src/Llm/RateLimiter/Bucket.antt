-- ===== src/Llm/RateLimiter/Bucket.antt =====
-- The bucket of a rate limiter.
use langchain_cpp.Base.{
  ap, ℕ, suc, ◌+◌, length, arith, ◌≡◌, refl, Bool, true, false, List, [], ◌∷◌, Option, none, some,
  if◌then◌else◌, inl, inr, Bool-cases,
}
use langchain_cpp.Llm.RateLimiter.{
  Numbers, RateLimiter, Acquired, slept, minimum, refill, take_token, wait_seconds, acquire,
}

-- What the bucket needs of the numbers.
pub record Laws (Ns : Numbers) : Type 0 where
  pub less-irreflexive : (a : Ns.Number) → Ns.less a a ≡ false
  pub less-asymmetric : (a b : Ns.Number) → Ns.less a b ≡ true → Ns.less b a ≡ false
  -- Less by one is not above what the number was not above.
  pub less-subtract :
      (a b : Ns.Number) → Ns.less a b ≡ false → Ns.less a (Ns.subtract b Ns.one) ≡ false

module _ (Ns : Numbers) (laws : Laws Ns) where
  open Ns use {Number}

  minimum_lem : (a b : Number) → Ns.less a (minimum Ns a b) ≡ false
  minimum_lem a b = elim (Bool-cases (Ns.less b a)) [
    | inl e ↦ rw e (laws.less-asymmetric b a e)
    | inr e ↦ rw e (laws.less-irreflexive a)
  ]

  -- The sleeps before a token is found, the level of tokens then, and the reading of the clock.
  pub record Found : Type 0 where
    pub waits : List Number
    pub level : Number
    pub now : Number

  abbrev pub after_wait : Number → Option Found → Option Found
  after_wait seconds none = none
  after_wait seconds (some f) = some (record f { waits = seconds ∷ f.waits })

  -- A bucket of that size that fills at that rate, with `tokens` at the reading `last`. At each reading of
  -- the clock it has gained the rate times the time since the reading before, up to its size. At the first
  -- reading at which it holds one token, that is found; until then each reading is followed by a sleep for
  -- the time in which the rest of a token comes.
  unfoldable pub first_token : Number → Number → List Number → Number → Number → Option Found
  first_token rate size [] tokens last = none
  first_token rate size (now ∷ clock) tokens last =
      let gained = Ns.add tokens (Ns.multiply (Ns.subtract now last) rate) in
      let level = if Ns.less gained size then gained else size in
      let later = first_token rate size clock level now in
      if Ns.reaches level Ns.one
      then some (record { waits = []; level = level; now = now })
      else after_wait (Ns.divide (Ns.subtract Ns.one level) rate) later

  -- Out of `n` readings: nothing where none finds a token; and else the bucket with the level that was
  -- found less one, no more than its size, as of that reading, after the sleeps.
  abbrev pub Took : RateLimiter Number → ℕ → Option Found → Option (Acquired Number) → Type 0
  Took l n none o = o ≡ none
  Took l n (some f) none = ⊥
  Took l n (some f) (some a) =
      (a.limiter ≡ record {
        requests_per_second = l.requests_per_second;
        max_bucket_size = l.max_bucket_size;
        available_tokens = Ns.subtract f.level Ns.one;
        last_refill = f.now;
      })
      × (Ns.less l.max_bucket_size a.limiter.available_tokens ≡ false)
      × (a.sleeps ≡ f.waits)
      × (suc (length a.sleeps) + length a.clock ≡ n)

  Took-later :
      (m : RateLimiter Number) (n : ℕ) (seconds : Number) (f : Option Found)
      (o : Option (Acquired Number))
      → Took m n f o
      → Took m (suc n) (after_wait seconds f) (slept seconds o)
  Took-later m n seconds none none h = refl
  Took-later m n seconds none (some a) h = ground (arith, h)
  Took-later m n seconds (some f) none h = h
  Took-later m n seconds (some f) (some a) (e, g, w, c) =
      (e, g, ap (λ s. seconds ∷ s) w, omega (arith, c))

  -- The bucket of `l` at a later reading.
  abbrev later_bucket : RateLimiter Number → Number → Number → RateLimiter Number
  later_bucket l level now = record l { available_tokens = level; last_refill = now }

  Took-round :
      (b : Bool) (clock : List Number) (l : RateLimiter Number) (level now : Number)
      (found : Option Found) (rest : Option (Acquired Number))
      → Ns.less l.max_bucket_size level ≡ false
      → Took l (length clock) found rest
      → Took l
          (suc (length clock))
          (if b
            then some (record { waits = []; level = level; now = now })
            else after_wait (Ns.divide (Ns.subtract Ns.one level) l.requests_per_second) found)
          (if b
            then some (record {
              limiter = take_token Ns (later_bucket l level now);
              clock = clock;
              sleeps = [];
            })
            else slept (wait_seconds Ns (later_bucket l level now)) rest)
  unfolding take_token wait_seconds
  Took-round true clock l level now found rest f h =
      (refl, laws.less-subtract l.max_bucket_size level f, refl, omega arith)
  Took-round false clock l level now found rest f h =
      Took-later l (length clock) (Ns.divide (Ns.subtract Ns.one level) l.requests_per_second) found
        rest h

  -- An acquire returns exactly where the bucket, which gains the rate times the time between two readings
  -- of the clock up to its size, is at some reading at least one; it takes one token at the first such
  -- reading and leaves no more than the size, and after each reading before it sleeps for the time in
  -- which the rest of a token comes.
  pub acquire-Took :
      (clock : List Number) (l : RateLimiter Number)
      → Took l
          (length clock)
          (first_token l.requests_per_second l.max_bucket_size clock l.available_tokens
            l.last_refill)
          (acquire Ns clock l)
  unfolding acquire first_token refill
  acquire-Took [] l = refl
  acquire-Took (now ∷ clock) l =
      let gained =
        Ns.add l.available_tokens
          (Ns.multiply (Ns.subtract now l.last_refill) l.requests_per_second) in
      let level = minimum Ns l.max_bucket_size gained in
      Took-round (Ns.reaches level Ns.one) clock l level now
        (first_token l.requests_per_second l.max_bucket_size clock level now)
        (acquire Ns clock (refill Ns now l)) (minimum_lem l.max_bucket_size gained)
        (acquire-Took clock (later_bucket l level now))
