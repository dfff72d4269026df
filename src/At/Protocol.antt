-- ===== src/At/Protocol.antt =====
-- components/at_engine/at_protocol.c. A line or a prefix that may be NULL is an option.
pub mod Final
use esp32_sms_gateway.Base.{
  Bool, true, false, not, ◌&&◌, ◌||◌, Option, none, some, List, [], ◌∷◌, if◌then◌else◌, ◌>>=◌,
  Bytes, codes, peek, str_eq, strip_prefix, has_prefix, skip_space, ℤ, pos, negsuc, in_range,
  int_max, strtol, ◌==◌, ℕ,
}

-- at_final_kind_t
pub data FinalKind : Type 0 where
  final_none final_ok final_error cme_error cms_error : FinalKind

-- at_final_status_t
pub record FinalStatus : Type 0 where
  pub kind : FinalKind
  pub error_code : ℤ

abbrev pub no_code : ℤ
no_code = negsuc 0

-- DEFAULT_URC_PREFIXES
unfoldable pub default_urc_prefixes : List Bytes
default_urc_prefixes =
    codes "+CMTI:"
    ∷ codes "+CMT:"
    ∷ codes "+CDS:"
    ∷ codes "+CDSI:"
    ∷ codes "+CBM:"
    ∷ codes "+CREG:"
    ∷ codes "+CGREG:"
    ∷ codes "+CEREG:"
    ∷ codes "+CUSD:"
    ∷ codes "+CLIP:"
    ∷ codes "+CRING:"
    ∷ codes "+CGEV:"
    ∷ codes "+CPIN:"
    ∷ codes "+CFUN:"
    ∷ codes "^RSSI:"
    ∷ codes "^MODE:"
    ∷ codes "^SRVST:"
    ∷ codes "^BOOT"
    ∷ codes "^DSFLOWRPT:"
    ∷ codes "^HCSQ:"
    ∷ codes "RING"
    ∷ codes "NO CARRIER"
    ∷ codes "SMS READY"
    ∷ codes "PB DONE"
    ∷ []

-- at_protocol_matches_any_prefix; a NULL list is `none`, and a NULL prefix in it is skipped.
unfoldable pub any_prefix : Bytes → List (Option Bytes) → Bool
any_prefix line [] = false
any_prefix line (none ∷ prefixes) = any_prefix line prefixes
any_prefix line (some p ∷ prefixes) = has_prefix line p || any_prefix line prefixes

unfoldable pub matches_any_prefix : Option Bytes → Option (List (Option Bytes)) → Bool
matches_any_prefix none prefixes = false
matches_any_prefix (some line) none = false
matches_any_prefix (some line) (some prefixes) = any_prefix line prefixes

abbrev pub present : List Bytes → List (Option Bytes)
present [] = []
present (p ∷ prefixes) = some p ∷ present prefixes

-- at_protocol_is_default_urc
unfoldable pub is_default_urc : Option Bytes → Bool
is_default_urc line = matches_any_prefix line (some (present default_urc_prefixes))

-- at_protocol_urc_continuation_lines
unfoldable pub urc_continuation_lines : Option Bytes → ℕ
urc_continuation_lines none = 0
urc_continuation_lines (some line) =
    if has_prefix line (codes "+CMT:")
      || has_prefix line (codes "+CDS:")
      || has_prefix line (codes "+CBM:")
    then 1
    else 0

-- at_protocol_should_route_as_urc
unfoldable pub should_route_as_urc : Option Bytes → Option (List (Option Bytes)) → Bool
should_route_as_urc line expected =
    if not (is_default_urc line) then false else not (matches_any_prefix line expected)

-- What parse_prefixed_error makes of strtol's answer.
unfoldable pub code_of : Option (ℤ × Bytes) → ℤ
code_of none = no_code
code_of (some (parsed, end)) =
    if peek (skip_space end) == 0 && in_range 0 int_max parsed then parsed else no_code

-- The code that parse_prefixed_error finds behind the prefix. (An empty text has no digits either.)
unfoldable pub prefixed_code : Bytes → ℤ
prefixed_code value = code_of (strtol (skip_space value))

abbrev parse_prefixed_error : Bytes → FinalKind → FinalStatus
parse_prefixed_error value kind = record { kind = kind; error_code = prefixed_code value }

abbrev pub plain_status : FinalKind → FinalStatus
plain_status kind = record { kind = kind; error_code = no_code }

-- The last part of at_protocol_final_status, on the texts behind the two prefixes where they stand.
unfoldable pub error_status : Option Bytes → Option Bytes → FinalStatus
error_status (some value) cms = parse_prefixed_error value cme_error
error_status none (some value) = parse_prefixed_error value cms_error
error_status none none = plain_status final_none

-- at_protocol_final_status
unfoldable pub final_status : Option Bytes → FinalStatus
final_status none = plain_status final_none
final_status (some line) =
    if str_eq line (codes "OK")
    then plain_status final_ok
    else if str_eq line (codes "ERROR")
    then plain_status final_error
    else error_status (strip_prefix (codes "+CME ERROR:") line)
        (strip_prefix (codes "+CMS ERROR:") line)
