-- ===== src/Sms/Code/Fresh.antt =====
-- The codes that `NewSmsCode` makes.
use Prim.Native.Char.{Char, code}
use Prim.Native.String.{◌∷◌, []}
use parkhub_api.Base.{
  ℕ, zero, suc, ◌+◌, ◌≡◌, ◌<◌, ◌≤◌, refl, Bool, true, false, ◌&&◌, String, Result, ok, err, arith,
  leb, eq_refl, eq_iff, subst, ◌≢◌,
}
use parkhub_api.Errors.{Error, other}
use parkhub_api.Sms.Code.{
  SmsCode, SmsPurpose, digit, fresh, generate_code, is_expired, new_sms_code, verify,
}

-- Exactly so many decimal digits.
abbrev pub is_digit : Char → Bool
is_digit c = leb 48 (code c) && leb (code c) 57

abbrev pub all_digits : ℕ → String → Bool
all_digits zero [] = true
all_digits zero (c ∷ s) = false
all_digits (suc n) [] = false
all_digits (suc n) (c ∷ s) = is_digit c && all_digits n s

digit_lem : (n : ℕ) → n < 10 → is_digit (digit n) ≡ true
digit_lem zero h = refl
digit_lem (suc zero) h = refl
digit_lem (suc (suc zero)) h = refl
digit_lem (suc (suc (suc zero))) h = refl
digit_lem (suc (suc (suc (suc zero)))) h = refl
digit_lem (suc (suc (suc (suc (suc zero))))) h = refl
digit_lem (suc (suc (suc (suc (suc (suc zero)))))) h = refl
digit_lem (suc (suc (suc (suc (suc (suc (suc zero))))))) h = refl
digit_lem (suc (suc (suc (suc (suc (suc (suc (suc zero)))))))) h = refl
digit_lem (suc (suc (suc (suc (suc (suc (suc (suc (suc zero))))))))) h = refl
digit_lem (suc (suc (suc (suc (suc (suc (suc (suc (suc (suc n)))))))))) h =
    absurd (omega (arith, h))

abbrev joined : Result String ℕ → Result Error String → Result Error String
joined x rest = elim x [
  | ok n ↦ elim rest [ ok s ↦ ok (digit n ∷ s) | err e ↦ err e ]
  | err e ↦ err (other e)
]

joined_lem :
    (x : Result String ℕ) (rest : Result Error String) (k : ℕ) (s : String)
    → ((n : ℕ) → x ≡ ok n → n < 10)
    → ((s : String) → rest ≡ ok s → all_digits k s ≡ true)
    → joined x rest ≡ ok s
    → all_digits (suc k) s ≡ true
joined_lem (ok n) (ok t) k s small h e =
    let same : digit n ∷ t ≡ s = cc in
    subst (λ s. all_digits (suc k) s ≡ true) same (rw (digit_lem n (small n refl), h t refl) refl)
joined_lem (ok n) (err x) k s small h e = ground (arith, e)
joined_lem (err x) rest k s small h e = ground (arith, e)

generate_code_lem :
    (rand : ℕ → Result String ℕ) (i k : ℕ) (s : String)
    → ((i n : ℕ) → rand i ≡ ok n → n < 10)
    → generate_code rand i k ≡ ok s
    → all_digits k s ≡ true
unfolding generate_code
generate_code_lem rand i zero s small e =
    let same : [] ≡ s = cc in subst (λ s. all_digits 0 s ≡ true) same refl
generate_code_lem rand i (suc k) s small e =
    joined_lem (rand i) (generate_code rand (suc i) k) k s (small i)
      (λ t h. generate_code_lem rand (suc i) k t small h) e

-- A code of six digits for that phone and purpose, not used, that lives `ttl` from `now` on: until then
-- `Verify` takes it and no other text, and nothing later.
pub record IsFresh (phone : String) (purpose : SmsPurpose) (ttl now : ℕ) (c : SmsCode)
    : Type 0 where
  pub six_digits : all_digits 6 c.code ≡ true
  pub for_phone : c.phone ≡ phone
  pub for_purpose : c.purpose ≡ purpose
  pub in_time : (t : ℕ) → t ≤ now + ttl → verify c c.code t ≡ ok tt
  pub too_late : (t : ℕ) (input : String) → now + ttl < t → verify c input t ≢ ok tt
  pub exact : (t : ℕ) (input : String) → verify c input t ≡ ok tt → input ≡ c.code

made_IsFresh :
    (phone : String) (purpose : SmsPurpose) (ttl now : ℕ) (x : Result Error String) (c : SmsCode)
    → ((s : String) → x ≡ ok s → all_digits 6 s ≡ true)
    → fresh phone purpose ttl now x ≡ ok c
    → IsFresh phone purpose ttl now c
unfolding verify is_expired
made_IsFresh phone purpose ttl now (err e) c h q = ground (arith, q)
made_IsFresh phone purpose ttl now (ok s) c h q =
    let made : SmsCode = record {
      id = "";
      phone = phone;
      code = s;
      purpose = purpose;
      expires_at = now + ttl;
      used = false;
      created_at = now;
    } in
    let same : made ≡ c = cc in
    subst (IsFresh phone purpose ttl now) same (record {
      six_digits = h s refl;
      for_phone = refl;
      for_purpose = refl;
      in_time = λ t soon. ground (arith, soon, eq_refl s);
      too_late = λ t input late e. ground (arith, late, e);
      exact = λ t input e. ground (arith, e, eq_iff s input);
    })

-- A code that `NewSmsCode` makes, where `rand.Int` gives numbers below 10 as it was asked: six digits,
-- taken by `Verify` alone and until the end of its time.
pub new_sms_code-IsFresh :
    (rand : ℕ → Result String ℕ) (phone : String) (purpose : SmsPurpose) (ttl now : ℕ) (c : SmsCode)
    → ((i n : ℕ) → rand i ≡ ok n → n < 10)
    → new_sms_code rand phone purpose ttl now ≡ ok c
    → IsFresh phone purpose ttl now c
unfolding new_sms_code
new_sms_code-IsFresh rand phone purpose ttl now c small e =
    made_IsFresh phone purpose ttl now (generate_code rand 0 6) c
      (λ s h. generate_code_lem rand 0 6 s small h) (ground (arith, e))
