-- ===== src/Utils/Tests.antt =====
-- Short texts.
use frewozet.Base.{◌≡◌, refl, arith, inl, inr, [], ◌∷◌, ◌++◌, some}
use frewozet.Base.Text.{codes}
use frewozet.CString.{decimal}
use frewozet.Utils.{
  parse_uint, parse_digits, run_calc, skip_spaces, calculate, parse_hex32, hex_value,
  negative_result,
}
use frewozet.Utils.Print.{run_calc-decimal}

calc-runs : run_calc (codes " 12 - 30 ") ≡ negative_result 18
unfolding run_calc skip_spaces parse_uint parse_digits
calc-runs = refl

hex-runs : parse_hex32 (λ i. 0) (some (codes "0x1fE")) ≡ some 0x1FE
unfolding parse_hex32 hex_value
hex-runs = refl

-- 'F' is no digit for it: the digit is what the variable held.
hex_garbage : parse_hex32 (λ i. 9) (some (codes "0x1F")) ≡ some 0x19
unfolding parse_hex32 hex_value
hex_garbage = refl

run_calc-decimal_example :
    run_calc (decimal 20 ++ (32 ∷ 42 ∷ 32 ∷ (decimal 30 ++ []))) ≡ calculate 20 42 30
run_calc-decimal_example =
    run_calc-decimal 20 30 42 [] (omega arith) (omega arith) (inr (inr (inl refl))) refl
