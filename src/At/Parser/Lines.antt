-- ===== src/At/Parser/Lines.antt =====
-- What the parser promises: its buffer never overflows, the tokens do not depend on how the stream is
-- cut into chunks, and a line comes back as it was sent, or as one overflow.
use esp32_sms_gateway.Base.{
  ℕ, ◌+◌, ◌≤◌, ◌<◌, ◌≡◌, refl, Bool, true, false, not, ◌&&◌, List, [], ◌∷◌, ◌++◌, append-nil,
  append_assoc, length, length-append, all, All, All-append, leb, ltb, ◌==◌, if◌then◌else◌, Bytes,
  peek, Bool-cases, inl, inr, arith, ◌∙◌,
}
use esp32_sms_gateway.At.Parser.{
  Token, line, prompt, line_overflow, Parser, max_line_length, is_line_end, step, feed,
}

abbrev pub is_line_byte : ℕ → Bool
is_line_byte ch = not (is_line_end ch)

-- A line token is not empty, is no longer than the buffer, and holds no line end.
abbrev pub IsToken : Token → Type 0
IsToken (line text) =
    (0 < length text) × (length text ≤ max_line_length) × (all is_line_byte text ≡ true)
IsToken prompt = Unit
IsToken line_overflow = Unit

pub record IsValid (p : Parser) : Type 0 where
  pub fits : length p.line ≤ max_line_length
  pub no_line_end : all is_line_byte p.line ≡ true

all-concat :
    (p : ℕ → Bool) (xs : Bytes) (x : ℕ) → all p xs ≡ true → p x ≡ true → all p (xs ++ x ∷ []) ≡ true
all-concat p [] x h k = ground arith
all-concat p (y ∷ xs) x h k = ground (arith, all-concat p xs x)

step-IsValid : (p : Parser) (ch : ℕ) → IsValid p → IsValid (step p ch).0 × All IsToken (step p ch).1
unfolding step
step-IsValid p ch v =
    ground (arith, all-concat is_line_byte p.line ch, length-append p.line (ch ∷ []))

-- From a valid state, whatever arrives, the buffer stays within its bounds and every token is one.
pub feed-IsValid :
    (p : Parser) (s : Bytes) → IsValid p → IsValid (feed p s).0 × All IsToken (feed p s).1
unfolding feed
feed-IsValid p [] v = (v, tt)
feed-IsValid p (ch ∷ s) v =
    let (v', t) = step-IsValid p ch v in
    let (v'', t') = feed-IsValid (step p ch).0 s v' in
    (v'', All-append IsToken (step p ch).1 (feed (step p ch).0 s).1 t t')

-- Feeding a stream in two chunks is feeding it at once.
feed-append :
    (p : Parser) (s t : Bytes)
    → feed p (s ++ t)
      ≡ (let (p', tokens) = feed p s in let (p'', more) = feed p' t in (p'', tokens ++ more))
unfolding feed
feed-append p [] t = refl
feed-append p (ch ∷ s) t = rw (feed-append (step p ch).0 s t) (rw append_assoc)

-- The parser is between tokens, and a `>` would not be taken for a prompt.
abbrev pub Collects : Parser → Bytes → Type 0
Collects p t =
    (p.discarding_overflow ≡ false)
    × (p.skip_prompt_space ≡ false)
    × ((p.prompt_enabled && peek t == b'>' && length p.line == 0) ≡ false)

step_discarding :
    (p : Parser) (ch : ℕ)
    → p.discarding_overflow ≡ true
    → p.skip_prompt_space ≡ false
    → is_line_byte ch ≡ true
    → step p ch ≡ (p, [])
unfolding step
step_discarding p ch d k h = ground arith

feed_discarding :
    (p : Parser) (t : Bytes)
    → p.discarding_overflow ≡ true
    → p.skip_prompt_space ≡ false
    → all is_line_byte t ≡ true
    → feed p t ≡ (p, [])
unfolding feed
feed_discarding p [] d k h = refl
feed_discarding p (ch ∷ t) d k h =
    rw (step_discarding p ch d k (ground arith)) (feed_discarding p t d k (ground arith))

step_collecting :
    (p : Parser) (ch : ℕ) (t : Bytes)
    → Collects p (ch ∷ t)
    → is_line_byte ch ≡ true
    → length p.line < max_line_length
    → step p ch ≡ (record p { line = p.line ++ ch ∷ [] }, [])
unfolding step
step_collecting p ch t c h fits = ground arith

step_overflowing :
    (p : Parser) (ch : ℕ) (t : Bytes)
    → Collects p (ch ∷ t)
    → is_line_byte ch ≡ true
    → length p.line ≡ max_line_length
    → step p ch ≡ (record p { line = []; discarding_overflow = true }, [])
unfolding step
step_overflowing p ch t c h full = ground arith

Collects-concat :
    (p : Parser) (ch : ℕ) (t : Bytes)
    → Collects p (ch ∷ t)
    → Collects (record p { line = p.line ++ ch ∷ [] }) t
Collects-concat p ch t c = ground (arith, length-append p.line (ch ∷ []))

feed_collecting :
    (p : Parser) (t : Bytes)
    → Collects p t
    → all is_line_byte t ≡ true
    → length p.line + length t ≤ max_line_length
    → feed p t ≡ (record p { line = p.line ++ t }, [])
unfolding feed
feed_collecting p [] c h fits = rw append-nil
feed_collecting p (ch ∷ t) c h fits = rw (step_collecting p ch t c (ground arith) (omega arith)) (
    feed_collecting (record p { line = p.line ++ ch ∷ [] }) t (Collects-concat p ch t c)
      (ground arith) (omega (arith, length-append p.line (ch ∷ [])))
    ∙ rw append_assoc)

feed_overflowing :
    (p : Parser) (t : Bytes)
    → Collects p t
    → all is_line_byte t ≡ true
    → length p.line ≤ max_line_length
    → max_line_length < length p.line + length t
    → feed p t ≡ (record p { line = []; discarding_overflow = true }, [])
unfolding feed
feed_overflowing p [] c h fits long = absurd (omega arith)
feed_overflowing p (ch ∷ t) c h fits long =
    elim (Bool-cases (ltb (length p.line) max_line_length)) [
      | inl room ↦ rw (step_collecting p ch t c (ground arith) (ground arith)) (
          feed_overflowing (record p { line = p.line ++ ch ∷ [] }) t (Collects-concat p ch t c)
            (ground arith) (ground (arith, length-append p.line (ch ∷ [])))
            (omega (arith, length-append p.line (ch ∷ []))))
      | inr full ↦ rw (step_overflowing p ch t c (ground arith) (ground arith)) (
          feed_discarding (record p { line = []; discarding_overflow = true }) t refl c.1
            (ground arith))
    ]

-- The tokens of one line of the modem.
abbrev pub line_tokens : Bytes → List Token
line_tokens text =
    if length text == 0
    then []
    else if leb (length text) max_line_length
    then line text ∷ []
    else line_overflow ∷ []

feed_line_end :
    (p : Parser) (text : Bytes) (e : ℕ)
    → p.line ≡ []
    → Collects p text
    → is_line_end e ≡ true
    → length text ≤ max_line_length
    → feed (record p { line = p.line ++ text }) (e ∷ []) ≡ (p, line_tokens text)
unfolding feed step
feed_line_end p text e empty c le fits = rw empty (ground arith)

feed_overflow_end :
    (p : Parser) (text : Bytes) (e : ℕ)
    → p.line ≡ []
    → Collects p text
    → is_line_end e ≡ true
    → max_line_length < length text
    → feed (record p { line = []; discarding_overflow = true }) (e ∷ []) ≡ (p, line_tokens text)
unfolding feed step
feed_overflow_end p text e empty c le long = ground arith

-- A line that arrives in a parser which is between lines, and does not start with what is taken for
-- a prompt, is one token: the line, if it has up to 512 bytes, or one overflow, and none if it is
-- empty. The parser is then as before.
pub feed_line :
    (p : Parser) (text : Bytes) (e : ℕ)
    → p.line ≡ []
    → Collects p text
    → all is_line_byte text ≡ true
    → is_line_end e ≡ true
    → feed p (text ++ e ∷ []) ≡ (p, line_tokens text)
feed_line p text e empty c h le =
    feed-append p text (e ∷ []) ∙ (elim (Bool-cases (leb (length text) max_line_length)) [
      | inl room ↦
          rw (feed_collecting p text c h (ground arith))
            (feed_line_end p text e empty c le (ground arith))
      | inr long ↦
          rw (feed_overflowing p text c h (ground arith) (ground arith))
            (feed_overflow_end p text e empty c le (ground arith))
    ])
