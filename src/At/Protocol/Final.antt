-- ===== src/At/Protocol/Final.antt =====
-- The final result lines: what each is taken for.
use esp32_sms_gateway.Base.{
  ℕ, ◌≤◌, ◌≡◌, ◌≢◌, refl, Option, some, [], ◌∷◌, ◌++◌, append-nil, Bytes, arith, codes, str_eq,
  strip_prefix, skip_space, peek, is_digit, int_max, pos, decimal, decimal_head, strtol,
  strtol-decimal, ℤ, negsuc, ◌⊎◌, inl, inr, ◌↔◌, none, Bool-cases, ◌==◌, leb, ◌&&◌, str_eq_iff,
  true,
}
use esp32_sms_gateway.At.Protocol.{
  cme_error, cms_error, final_ok, final_error, no_code, code_of, FinalStatus, final_status,
  prefixed_code, error_status,
}

skip_space_digit : (s : Bytes) → is_digit (peek s) ≡ true → skip_space s ≡ s
unfolding skip_space
skip_space_digit [] h = refl
skip_space_digit (c ∷ s) h = ground arith

prefixed_code-decimal : (n : ℕ) → n ≤ int_max → prefixed_code (b' ' ∷ decimal n) ≡ pos n
unfolding prefixed_code
prefixed_code-decimal n fits =
    let front : skip_space (b' ' ∷ decimal n) ≡ decimal n =
      unfold skip_space in skip_space_digit (decimal n) (rw append-nil at (decimal_head n [])) in
    let read : strtol (decimal n) ≡ some (pos n, []) =
      rw append-nil at (strtol-decimal n [] fits refl) in
    rw (front, read) (unfold code_of skip_space in ground arith)

-- An error line with a decimal code of up to INT_MAX gives its kind and its code.
pub final_status-decimal :
    (n : ℕ)
    → n ≤ int_max
    → (final_status (some (codes "+CME ERROR: " ++ decimal n))
        ≡ record { kind = cme_error; error_code = pos n })
      × (final_status (some (codes "+CMS ERROR: " ++ decimal n))
          ≡ record { kind = cms_error; error_code = pos n })
unfolding final_status error_status str_eq strip_prefix
final_status-decimal n fits = (rw (prefixed_code-decimal n fits), rw (prefixed_code-decimal n fits))

-- A code is read as a number of an int that is not negative, or not at all.
abbrev pub IsCode : ℤ → Type 0
IsCode z = (z ≡ no_code) ⊎ ((n : ℕ) × (z ≡ pos n) × (n ≤ int_max))

code_of-IsCode : (o : Option (ℤ × Bytes)) → IsCode (code_of o)
unfolding code_of
code_of-IsCode none = inl refl
code_of-IsCode (some (negsuc n, end)) = inl (ground arith)
code_of-IsCode (some (pos n, end)) =
    elim (Bool-cases (peek (skip_space end) == 0 && leb n int_max)) [
      | inl good ↦ inr (n, ground arith, ground arith)
      | inr bad ↦ inl (ground arith)
    ]

abbrev IsErrorStatus : FinalStatus → Type 0
IsErrorStatus s = (s.kind ≢ final_ok) × (s.kind ≢ final_error) × IsCode s.error_code

error_status-IsErrorStatus : (cme cms : Option Bytes) → IsErrorStatus (error_status cme cms)
unfolding error_status prefixed_code
error_status-IsErrorStatus (some v) cms = (cc, cc, code_of-IsCode (strtol (skip_space v)))
error_status-IsErrorStatus none (some v) = (cc, cc, code_of-IsCode (strtol (skip_space v)))
error_status-IsErrorStatus none none = (cc, cc, inl refl)

-- A line ends a command well exactly if it is OK and plainly badly exactly if it is ERROR; whatever
-- the line, its code is -1 or a number of an int that is not negative.
pub final_status_lem :
    (line : Bytes)
    → (((final_status (some line)).kind ≡ final_ok) ↔ (line ≡ codes "OK"))
      × (((final_status (some line)).kind ≡ final_error) ↔ (line ≡ codes "ERROR"))
      × IsCode (final_status (some line)).error_code
unfolding final_status
final_status_lem line =
    let cme = strip_prefix (codes "+CME ERROR:") line in
    let cms = strip_prefix (codes "+CMS ERROR:") line in
    ground (
      arith,
      str_eq_iff line (codes "OK"),
      str_eq_iff line (codes "ERROR"),
      error_status-IsErrorStatus cme cms,
    )
