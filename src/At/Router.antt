-- ===== src/At/Router.antt =====
-- components/at_engine/at_router.c: which lines of the modem are answers, and which are unsolicited.
pub mod Traces
use esp32_sms_gateway.Base.{
  ℕ, zero, suc, Bool, true, false, Option, none, some, List, if◌then◌else◌, Bytes,
}
use esp32_sms_gateway.At.Protocol.{should_route_as_urc, urc_continuation_lines}

-- at_route_t
pub data Route : Type 0 where
  response urc : Route

-- at_router_t
pub record Router : Type 0 where
  pub urc_continuation_lines : ℕ

-- at_router_init
abbrev pub init : Router
init = record { urc_continuation_lines = 0 }

-- at_router_route_line on a line that is there, by the lines that the last one still announces.
abbrev pub route_by : ℕ → Bytes → Option (List (Option Bytes)) → Router × Route
route_by (suc n) line expected = (record { urc_continuation_lines = n }, urc)
route_by zero line expected =
    if should_route_as_urc (some line) expected
    then (record { urc_continuation_lines = urc_continuation_lines (some line) }, urc)
    else (record { urc_continuation_lines = 0 }, response)

-- at_router_route_line
unfoldable pub route_line : Router → Option Bytes → Option (List (Option Bytes)) → Router × Route
route_line r none expected = (r, response)
route_line r (some line) expected = route_by r.urc_continuation_lines line expected

-- The routes of a run of lines, under the prefixes that the active command expects at each.
unfoldable pub route_lines :
    Router → List (Bytes × Option (List (Option Bytes))) → Router × List Route
route_lines r List.[] = (r, List.[])
route_lines r (List.◌∷◌ (line, expected) lines) =
    let (r', route) = route_line r (some line) expected in
    let (r'', routes) = route_lines r' lines in (r'', List.◌∷◌ route routes)
