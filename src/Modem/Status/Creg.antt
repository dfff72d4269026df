-- ===== src/Modem/Status/Creg.antt =====
-- The answers to AT+CREG?, AT+CGREG? and AT+CEREG?, and the notifications of the same names.
use esp32_sms_gateway.Base.{
  ℕ, ◌≤◌, ◌≡◌, refl, true, not, Option, none, some, [], ◌∷◌, ◌++◌, append-nil, if◌then◌else◌,
  >>=-eq-some, Bytes, arith, peek, is_digit, skip_space, strip_prefix-append, ℤ, pos, negsuc,
  in_range, decimal, decimal_head,
}
use esp32_sms_gateway.Modem.Status.Csq.{
  parse_int-decimal, parse_int-blank_decimal, skip_space-decimal,
}
use esp32_sms_gateway.Modem.Status.{
  parse_int, second_field, choose_status, first_field, behind, behind_last_comma, technology,
  Registration, parse_registration,
}

-- Whatever the line, a status that is reported is a number from 0 to 5.
pub parse_registration_bounds :
    (line : Option Bytes) (prefix : Bytes) {r : Registration}
    → parse_registration line prefix ≡ some r
    → (n : ℕ) × (r.status ≡ pos n) × (n ≤ 5)
unfolding parse_registration
parse_registration_bounds line prefix {r} h =
    let (c0, _, h1) = >>=-eq-some (behind line prefix) _ h in
    let ((first, c1), _, h2) = >>=-eq-some (parse_int c0) _ h1 in
    by_status (first_field first (skip_space c1)) h2
  where
    by_status :
        (chosen : ℤ × Bytes)
        → (if not (in_range 0 5 chosen.0)
            then none
            else some (record { status = chosen.0; access_technology = technology chosen.1 }))
          ≡ some r
        → (n : ℕ) × (r.status ≡ pos n) × (n ≤ 5)
    by_status (pos n, c) e = (n, ground arith, ground arith)
    by_status (negsuc n, c) e = cc

choose_status-decimal :
    (n stat : ℕ)
    → n ≤ 2
    → stat ≤ 5
    → parse_int (decimal stat) ≡ some (pos stat, [])
    → is_digit (peek (decimal stat)) ≡ true
    → choose_status (pos n) (decimal stat) ≡ (pos stat, [])
unfolding choose_status
choose_status-decimal n stat hn hs read digit = rw read (unfold second_field in ground arith)

no_technology : technology [] ≡ negsuc 0
unfolding technology behind_last_comma
no_technology = refl

-- The query form `<prefix> <n>,<stat>` reports its second number, for the modes 0 to 2 and the statuses
-- 0 to 5, and the notification `<prefix> <stat>` its only one; neither names a technology.
pub parse_registration-decimal :
    (prefix : Bytes) (n stat : ℕ)
    → n ≤ 2
    → stat ≤ 5
    → (parse_registration (some (prefix ++ (b' ' ∷ (decimal n ++ (b',' ∷ decimal stat))))) prefix
        ≡ some (record { status = pos stat; access_technology = negsuc 0 }))
      × (parse_registration (some (prefix ++ (b' ' ∷ decimal stat))) prefix
          ≡ some (record { status = pos stat; access_technology = negsuc 0 }))
unfolding parse_registration
parse_registration-decimal prefix n stat hn hs =
    let first : parse_int (b' ' ∷ (decimal n ++ (b',' ∷ decimal stat)))
        ≡ some (pos n, b',' ∷ decimal stat) =
      parse_int-blank_decimal n (b',' ∷ decimal stat) (omega arith) refl in
    let second : parse_int (decimal stat) ≡ some (pos stat, []) =
      rw append-nil at (parse_int-decimal stat [] (omega arith) refl) in
    let only : parse_int (b' ' ∷ decimal stat) ≡ some (pos stat, []) =
      rw append-nil at (parse_int-blank_decimal stat [] (omega arith) refl) in
    let field : first_field (pos n) (skip_space (b',' ∷ decimal stat))
        ≡ choose_status (pos n) (decimal stat) =
      unfold skip_space in rw (rw append-nil at (skip_space-decimal stat [])) in
    let chosen : choose_status (pos n) (decimal stat) ≡ (pos stat, []) =
      choose_status-decimal n stat hn hs second (rw append-nil at (decimal_head stat [])) in
    (
      rw (strip_prefix-append prefix (b' ' ∷ (decimal n ++ (b',' ∷ decimal stat))), first)
          (rw (field, chosen, no_technology) (ground arith)),
      rw (strip_prefix-append prefix (b' ' ∷ decimal stat), only)
          (unfold skip_space in rw no_technology (ground arith)),
    )
