-- ===== src/Utils/Tests.antt =====
-- The theorems on src/utils at concrete inputs.
use setlyst_api.Prelude.{
  nat_eq, ℕ, refl, some, none, [], ◌∷◌, true, false, ◌≡◌, Option, ◌++◌, map, List, arith,
}
use setlyst_api.Utils.Csv.{Chars, defuse, push_row, is_risky, is_break}
use setlyst_api.Utils.Csv.Reader.{before, read}
use setlyst_api.Utils.Csv.Laws.{push_row-read, defuse-starts_cell, is_among, formula_starts}
use setlyst_api.Utils.Totp.{
  Bytes, verify, verify_loop, try_step, candidate, hotp, digits, compact, is_code, step_at,
  check_totp, claim_totp_step,
}
use setlyst_api.Utils.Totp.Laws.{IsSha1, IsVerdict, verify-IsVerdict}
use setlyst_api.Utils.Totp.Replay.{
  enabled, refused, accepted, IsDescending, IsNewest, TotpRun-IsDescending,
}
use setlyst_api.Utils.RateLimit.{SlidingWindowLimiter}
use setlyst_api.Utils.RateLimit.Spec.{answers, Hit, promised}
use setlyst_api.Utils.RateLimit.Refines.{answers_refine}

-- `=1,2`
abbrev formula : Chars
formula = 61 ∷ 49 ∷ 44 ∷ 50 ∷ []

-- `say "hi"`
abbrev saying : Chars
saying = 115 ∷ 97 ∷ 121 ∷ 32 ∷ 34 ∷ 104 ∷ 105 ∷ 34 ∷ []

push_row-read_example :
    (text : Chars) × (push_row [] (formula ∷ saying ∷ []) ≡ [] ++ text)
    × ((rest : Chars)
        → read before (text ++ rest)
          ≡ some (defuse true formula ∷ map (defuse true) (saying ∷ []), rest))
push_row-read_example = push_row-read [] formula (saying ∷ [])

-- `x;@1`, which becomes `x;'@1`
defuse-starts_cell_example : is_among formula_starts 39 ≡ false
unfolding defuse is_risky is_break
defuse-starts_cell_example =
    defuse-starts_cell (120 ∷ 59 ∷ 64 ∷ 49 ∷ []) (120 ∷ 59 ∷ []) 39 (64 ∷ 49 ∷ []) refl refl

-- A digest that gives every step the code 000000.
abbrev zero_hmac : Bytes → Bytes → Bytes
zero_hmac secret message =
    0 ∷ 0 ∷ 0 ∷ 0 ∷ 0 ∷ 0 ∷ 0 ∷ 0 ∷ 0 ∷ 0 ∷ 0 ∷ 0 ∷ 0 ∷ 0 ∷ 0 ∷ 0 ∷ 0 ∷ 0 ∷ 0 ∷ 0 ∷ []

zero_hmac-IsSha1 : IsSha1 zero_hmac
zero_hmac-IsSha1 secret message = refl

abbrev zero_code : Bytes
zero_code = 48 ∷ 48 ∷ 48 ∷ 32 ∷ 48 ∷ 48 ∷ 48 ∷ []

verify-IsVerdict_example :
    (r : Option ℕ) × (verify zero_hmac [] zero_code 100 (some 2) ≡ some r)
    × IsVerdict zero_hmac [] zero_code 100 (some 2) r
verify-IsVerdict_example = verify-IsVerdict zero_hmac zero_hmac-IsSha1 [] zero_code 100 (some 2)

TotpRun-IsDescending_example : IsNewest (some 4) (4 ∷ 2 ∷ []) × IsDescending (4 ∷ 2 ∷ [])
unfolding verify verify_loop try_step candidate hotp digits compact is_code step_at check_totp
    claim_totp_step
TotpRun-IsDescending_example = TotpRun-IsDescending zero_hmac [] (some 4) (4 ∷ 2 ∷ []) (
    accepted zero_code 150 (some 2) (refused zero_code 100 none (enabled zero_code 100 refl) refl)
      refl)

abbrev limiter : SlidingWindowLimiter
limiter = record { window = 100; max = 2 }

abbrev hits : List (Hit ℕ)
hits =
    record { key = 1; at = 10 }
    ∷ record { key = 1; at = 20 }
    ∷ record { key = 1; at = 30 }
    ∷ record { key = 1; at = 115 }
    ∷ []

answers_refine_example :
    answers limiter hits (record { map = []; last_prune = none }) ≡ promised limiter hits (λ _. [])
answers_refine_example =
    answers_refine limiter hits (omega arith, (omega arith, (omega arith, (omega arith, tt))))
