-- ===== src/At/Router/Traces.antt =====
-- A line that announces its payload takes exactly the next line with it.
use esp32_sms_gateway.Base.{
  ℕ, zero, suc, true, false, ◌⊎◌, ◌++◌, codes, has_prefix, ◌≤◌, ◌≡◌, refl, Bool, Option, none, some,
  List, ◌∷◌, Bytes, arith, if◌then◌else◌, ◌&&◌, not, ◌==◌, Bool-cases, inl, inr,
}
use esp32_sms_gateway.At.Protocol.{
  should_route_as_urc, is_default_urc, matches_any_prefix, urc_continuation_lines, any_prefix,
  default_urc_prefixes,
}
use esp32_sms_gateway.At.Router.{
  Route, response, urc, Router, init, route_by, route_line, route_lines,
}

-- At most one line is announced.
abbrev pub IsValid : Router → Type 0
IsValid r = r.urc_continuation_lines ≤ 1

route_by-IsValid :
    (n : ℕ) (line : Bytes) (expected : Option (List (Option Bytes)))
    → n ≤ 1
    → IsValid (route_by n line expected).0
unfolding urc_continuation_lines
route_by-IsValid zero line expected v = ground arith
route_by-IsValid (suc n) line expected v = ground arith

-- A router that counts at most one announced line still does, whatever the line.
pub route_line-IsValid :
    (r : Router) (line : Option Bytes) (expected : Option (List (Option Bytes)))
    → IsValid r
    → IsValid (route_line r line expected).0
unfolding route_line
route_line-IsValid r none expected v = v
route_line-IsValid r (some line) expected v =
    route_by-IsValid r.urc_continuation_lines line expected v

-- The line is a known unsolicited one, and the active command does not expect it.
abbrev pub is_unsolicited : Bytes → Option (List (Option Bytes)) → Bool
is_unsolicited line expected =
    is_default_urc (some line) && not (matches_any_prefix (some line) expected)

-- The router's answer to more lines, with a route in front.
abbrev pub ahead : Route → Router × List Route → Router × List Route
ahead route (r, routes) = (r, route ∷ routes)

should_route_as_urc_lem :
    (line : Bytes) (expected : Option (List (Option Bytes)))
    → should_route_as_urc (some line) expected ≡ is_unsolicited line expected
unfolding should_route_as_urc
should_route_as_urc_lem line expected = ground arith

urc_continuation_lines-le : (line : Bytes) → urc_continuation_lines (some line) ≤ 1
unfolding urc_continuation_lines
urc_continuation_lines-le line = ground arith

route_lines_first :
    (line : Bytes) (expected : Option (List (Option Bytes)))
    (more : List (Bytes × Option (List (Option Bytes))))
    → route_lines init ((line, expected) ∷ more) ≡ (
        if is_unsolicited line expected
        then ahead urc (
            route_lines
              (record { urc_continuation_lines = urc_continuation_lines (some line) })
              more)
        else ahead response (route_lines init more))
unfolding route_lines route_line
route_lines_first line expected more =
    rw (should_route_as_urc_lem line expected)
      (elim (Bool-cases (is_unsolicited line expected)) [ inl u ↦ rw u | inr u ↦ rw u ])

route_lines_payload :
    (payload : Bytes) (expected : Option (List (Option Bytes)))
    (rest : List (Bytes × Option (List (Option Bytes))))
    → route_lines (record { urc_continuation_lines = 1 }) ((payload, expected) ∷ rest)
      ≡ ahead urc (route_lines init rest)
unfolding route_lines route_line
route_lines_payload payload expected rest = refl

-- From an idle router, on two lines and any behind them: an answer, or a line that the command
-- expects, is routed to the command and leaves the router idle; so does an unsolicited line, routed
-- away from it; and one that announces a payload takes the second line with it, whatever that is and
-- whatever is expected by then, and leaves the router idle for the rest.
route_lines_lem :
    (line payload : Bytes) (expected expected' : Option (List (Option Bytes)))
    (rest : List (Bytes × Option (List (Option Bytes))))
    → route_lines init ((line, expected) ∷ (payload, expected') ∷ rest) ≡ (
        if not (is_unsolicited line expected)
        then ahead response (route_lines init ((payload, expected') ∷ rest))
        else if urc_continuation_lines (some line) == 0
        then ahead urc (route_lines init ((payload, expected') ∷ rest))
        else ahead urc (ahead urc (route_lines init rest)))
route_lines_lem line payload expected expected' rest =
    by_count (urc_continuation_lines (some line)) refl (urc_continuation_lines-le line)
  where
    by_count :
        (n : ℕ)
        → urc_continuation_lines (some line) ≡ n
        → n ≤ 1
        → route_lines init ((line, expected) ∷ (payload, expected') ∷ rest) ≡ (
            if not (is_unsolicited line expected)
            then ahead response (route_lines init ((payload, expected') ∷ rest))
            else if urc_continuation_lines (some line) == 0
            then ahead urc (route_lines init ((payload, expected') ∷ rest))
            else ahead urc (ahead urc (route_lines init rest)))
    by_count zero e l =
        rw (route_lines_first line expected ((payload, expected') ∷ rest), e)
          (elim (Bool-cases (is_unsolicited line expected)) [ inl u ↦ rw u | inr u ↦ rw u ])
    by_count (suc zero) e l =
        rw
          (
            route_lines_first line expected ((payload, expected') ∷ rest),
            e,
            route_lines_payload payload expected' rest,
          )
          (elim (Bool-cases (is_unsolicited line expected)) [ inl u ↦ rw u | inr u ↦ rw u ])
    by_count (suc (suc n)) e l = absurd (omega arith)

-- A line that starts with "+CMT:", "+CDS:" or "+CBM:" and that the active command does not expect is routed
-- away from the command together with the line behind it, whatever that is and whatever is expected by
-- then; the router is idle for the rest.
pub route_lines-announced :
    (line payload text : Bytes) (expected expected' : Option (List (Option Bytes)))
    (rest : List (Bytes × Option (List (Option Bytes))))
    → (line ≡ codes "+CMT:" ++ text)
      ⊎ ((line ≡ codes "+CDS:" ++ text) ⊎ (line ≡ codes "+CBM:" ++ text))
    → matches_any_prefix (some line) expected ≡ false
    → route_lines init ((line, expected) ∷ (payload, expected') ∷ rest)
      ≡ ahead urc (ahead urc (route_lines init rest))
route_lines-announced line payload text expected expected' rest starts unexpected =
    let (known, one) = announces line text starts in
    rw (route_lines_lem line payload expected expected' rest, known, unexpected, one) refl
  where
    announces :
        (line text : Bytes)
        → (line ≡ codes "+CMT:" ++ text)
          ⊎ ((line ≡ codes "+CDS:" ++ text) ⊎ (line ≡ codes "+CBM:" ++ text))
        → (is_default_urc (some line) ≡ true) × (urc_continuation_lines (some line) ≡ 1)
    announces line text (inl e) = rw e (
        unfold is_default_urc matches_any_prefix any_prefix default_urc_prefixes has_prefix
          urc_continuation_lines in
        (refl, refl))
    announces line text (inr (inl e)) = rw e (
        unfold is_default_urc matches_any_prefix any_prefix default_urc_prefixes has_prefix
          urc_continuation_lines in
        (refl, refl))
    announces line text (inr (inr e)) = rw e (
        unfold is_default_urc matches_any_prefix any_prefix default_urc_prefixes has_prefix
          urc_continuation_lines in
        (refl, refl))
