-- ===== src/Tests/At.antt =====
-- The AT engine on concrete streams (tests/test_at_parser.c).
use esp32_sms_gateway.Base.{
  inl, ◌≡◌, ◌≤◌, ◌↔◌, refl, true, none, some, [], ◌∷◌, ◌++◌, Bytes, codes, arith, All, pos, decimal,
  has_prefix,
}
use esp32_sms_gateway.At.Parser
use esp32_sms_gateway.At.Parser.{Token, line, prompt, line_overflow, feed, step, set_prompt_enabled}
use esp32_sms_gateway.At.Parser.Lines.{IsToken, IsValid, feed-IsValid, feed_line}
use esp32_sms_gateway.At.Protocol.{
  final_ok, final_error, cme_error, cms_error, final_status, default_urc_prefixes, any_prefix,
  matches_any_prefix, is_default_urc,
}
use esp32_sms_gateway.At.Protocol.Final.{final_status-decimal, final_status_lem, IsCode}
use esp32_sms_gateway.At.Router
use esp32_sms_gateway.At.Router.{Route, urc, response, route_line, route_lines}
use esp32_sms_gateway.At.Router.Traces.{
  route_lines-announced, route_line-IsValid, is_unsolicited, ahead,
}

abbrev stream : Bytes
stream = codes "\r\nOK\r\n+CSQ: 20,99\r\n"

stream_tokens :
    feed Parser.init stream ≡ (Parser.init, line (codes "OK") ∷ line (codes "+CSQ: 20,99") ∷ [])
unfolding feed step
stream_tokens = refl

feed_prompt : (feed (set_prompt_enabled Parser.init true) (codes "\r\n> ")).1 ≡ prompt ∷ []
unfolding feed step set_prompt_enabled
feed_prompt = refl

feed-IsValid_example : IsValid (feed Parser.init stream).0 × All IsToken (feed Parser.init stream).1
feed-IsValid_example =
    feed-IsValid Parser.init stream (record { fits = omega arith; no_line_end = refl })

feed_line_example :
    feed Parser.init (codes "OK" ++ b'\r' ∷ []) ≡ (Parser.init, line (codes "OK") ∷ [])
feed_line_example = feed_line Parser.init (codes "OK") b'\r' refl (refl, refl, refl) refl refl

final_status-decimal_run :
    (final_status (some (codes "+CME ERROR: " ++ decimal 10))
      ≡ record { kind = cme_error; error_code = pos 10 })
    × (final_status (some (codes "+CMS ERROR: " ++ decimal 10))
        ≡ record { kind = cms_error; error_code = pos 10 })
final_status-decimal_run = final_status-decimal 10 (omega arith)

final_status_lem_example :
    (((final_status (some (codes "OK"))).kind ≡ final_ok) ↔ (codes "OK" ≡ codes "OK"))
    × (((final_status (some (codes "OK"))).kind ≡ final_error) ↔ (codes "OK" ≡ codes "ERROR"))
    × IsCode (final_status (some (codes "OK"))).error_code
final_status_lem_example = final_status_lem (codes "OK")

cmt_is_unsolicited : is_unsolicited (codes "+CMT: ,24") none ≡ true
unfolding is_default_urc matches_any_prefix any_prefix default_urc_prefixes has_prefix
cmt_is_unsolicited = refl

abbrev cmt : Bytes
cmt = codes "+CMT: ,24"

abbrev pdu : Bytes
pdu = codes "0791"

route_lines-announced_example :
    route_lines Router.init ((cmt, none) ∷ (pdu, none) ∷ [])
    ≡ ahead urc (ahead urc (route_lines Router.init []))
unfolding matches_any_prefix
route_lines-announced_example =
    route_lines-announced cmt pdu (codes " ,24") none none [] (inl refl) refl

route_line-IsValid_example : (route_line Router.init (some cmt) none).0.urc_continuation_lines ≤ 1
route_line-IsValid_example = route_line-IsValid Router.init (some cmt) none (omega arith)
