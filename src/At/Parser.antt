-- ===== src/At/Parser.antt =====
-- components/at_engine/at_parser.c. The callback is taken as present: the tokens that it gets are
-- the second part of the result, in order. The line buffer is the list of the bytes read.
pub mod Lines
use esp32_sms_gateway.Base.{
  ℕ, ◌+◌, ◌^◌, ◌-◌, Bool, true, false, not, ◌&&◌, ◌||◌, List, [], ◌∷◌, ◌++◌, length, leb, ◌==◌,
  if◌then◌else◌, Bytes,
}

-- at_token_t
pub data Token : Type 0 where
  line : Bytes → Token
  prompt : Token
  line_overflow : Token

-- at_parser_t
pub record Parser : Type 0 where
  pub line : Bytes
  pub discarding_overflow : Bool
  pub skip_prompt_space : Bool
  pub prompt_enabled : Bool

abbrev pub max_line_length : ℕ
max_line_length = 512

-- at_parser_init, at_parser_reset
abbrev pub init : Parser
init = record {
  line = [];
  discarding_overflow = false;
  skip_prompt_space = false;
  prompt_enabled = false;
}

-- at_parser_set_prompt_enabled
unfoldable pub set_prompt_enabled : Parser → Bool → Parser
set_prompt_enabled p enabled = record p {
  prompt_enabled = enabled;
  skip_prompt_space = enabled && p.skip_prompt_space;
}

abbrev pub is_line_end : ℕ → Bool
is_line_end ch = ch == b'\r' || ch == b'\n'

-- emit_line
unfoldable pub emit_line : Parser → Parser × List Token
emit_line p = if length p.line == 0 then (p, []) else (record p { line = [] }, line p.line ∷ [])

-- The body of at_parser_feed's loop below the test of skip_prompt_space.
unfoldable pub feed_byte : Parser → ℕ → Parser × List Token
unfolding emit_line
feed_byte p ch =
    if p.discarding_overflow
    then (if is_line_end ch
        then (record p { discarding_overflow = false; line = [] }, line_overflow ∷ [])
        else (p, []))
    else if is_line_end ch
    then emit_line p
    else if p.prompt_enabled && ch == b'>' && length p.line == 0
    then (record p { skip_prompt_space = true }, prompt ∷ [])
    else if leb max_line_length (length p.line)
    then (record p { discarding_overflow = true; line = [] }, [])
    else (record p { line = p.line ++ ch ∷ [] }, [])

-- One round of at_parser_feed's loop.
unfoldable pub step : Parser → ℕ → Parser × List Token
unfolding feed_byte
step p ch =
    if p.skip_prompt_space && ch == b' '
    then (record p { skip_prompt_space = false }, [])
    else feed_byte (record p { skip_prompt_space = false }) ch

-- at_parser_feed
unfoldable pub feed : Parser → Bytes → Parser × List Token
feed p [] = (p, [])
feed p (ch ∷ s) =
    let (p', tokens) = step p ch in let (p'', more) = feed p' s in (p'', tokens ++ more)
