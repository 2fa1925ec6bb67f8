-- ===== src/Identity/Sample.antt =====
-- Libraries that meet the laws of the model, to run it: a hash that shows its password, a signer that
-- knows four tokens, users in a table in memory and tokens in a store in memory.
use Prim.Native.String.{◌∷◌}
use text.Mathlib.TextLemmas.{nil≢cons}
use parkhub_api.Base.{
  ℕ, ◌+◌, ◌*◌, ◌<◌, ◌≡◌, refl, ap, ◌∙◌, sym, Bool, true, false, ◌&&◌, ◌||◌, Option, none, some,
  String, [], ◌∷◌, Result, ok, err, str_eq, ltb, ◌==◌, eq_iff, eq_refl, Bool-cases, arith,
  if◌then◌else◌, inl, inr,
}
use parkhub_api.Errors.{sms, code_mismatch}
use parkhub_api.Gorm.{Gorm}
use parkhub_api.Gorm.Memory.{Table, memory as table_memory}
use parkhub_api.Redis.{Entries}
use parkhub_api.Redis.Memory.{memory}
use parkhub_api.Identity.User.{active, operator}
use parkhub_api.Identity.UserDao.{UserRow}
use parkhub_api.Identity.UserService.{Bcrypt}
use parkhub_api.Identity.Token.{Claims, TokenSigner}
use parkhub_api.Identity.AuthService.{AuthService, AuthConfig, Moment, State}

-- No text is empty that begins with a character.
cons-empty : (s : String) → str_eq ("$" ∷ s) "" ≡ false
cons-empty s = elim (Bool-cases (str_eq ("$" ∷ s) "")) [
  | inl e ↦ absurd (nil≢cons (sym ((eq_iff ("$" ∷ s) "").0 e)))
  | inr e ↦ e
]

ok_eq : (x : Result String String) (s t : String) → x ≡ ok s → x ≡ ok t → s ≡ t
ok_eq (ok u) s t h k = ground (arith, h, k)
ok_eq (err e) s t h k = ground (arith, h)

pub bcrypt_law :
    (password hash : String)
    → ◌≡◌ {A = Result String String} (ok ("$" ∷ password)) (ok hash)
    → (str_eq hash ("$" ∷ password) ≡ true) × (str_eq hash "" ≡ false)
bcrypt_law password hash h =
    let same = ok_eq (ok ("$" ∷ password)) ("$" ∷ password) hash refl h in
    rw (← same) (eq_refl ("$" ∷ password), cons-empty password)

abbrev pub bcrypt : Bcrypt
bcrypt = record {
  generate_from_password = λ salt password. ok ("$" ∷ password);
  compare_hash_and_password = λ hash password. str_eq hash ("$" ∷ password);
  compare_law = λ salt password hash h. bcrypt_law password hash h;
}

abbrev same_claims : Claims → Claims → Bool
same_claims c d =
    str_eq c.token_use d.token_use
    && str_eq c.user_id d.user_id
    && str_eq c.tenant_id d.tenant_id
    && str_eq c.role d.role
    && str_eq c.key d.key
    && str_eq c.subject d.subject
    && str_eq c.issuer d.issuer
    && str_eq c.id d.id
    && (c.issued_at == d.issued_at)
    && (c.expires_at == d.expires_at)

same_claims_eq : (c d : Claims) → same_claims c d ≡ true → c ≡ d
same_claims_eq c d h = ground (
  arith,
  eq_iff c.token_use d.token_use,
  eq_iff c.user_id d.user_id,
  eq_iff c.tenant_id d.tenant_id,
  eq_iff c.role d.role,
  eq_iff c.key d.key,
  eq_iff c.subject d.subject,
  eq_iff c.issuer d.issuer,
  eq_iff c.id d.id,
)

abbrev pub cfg : AuthConfig
cfg = record { issuer = "parkhub"; access_ttl = "15m"; refresh_ttl = "168h"; key_id = "k1" }

-- Two moments, of a login and of an exchange behind it.
abbrev pub first_moment : Moment
first_moment = record {
  checked = 1_000_000;
  issued = 1_000_000;
  logged_in = 1_000_001;
  access_jti = "a1";
  refresh_jti = "r1";
}

abbrev pub second_moment : Moment
second_moment = record {
  checked = 2_000_000;
  issued = 2_000_000;
  logged_in = 2_000_001;
  access_jti = "a2";
  refresh_jti = "r2";
}

abbrev pub access_of : String → ℕ → Claims
access_of jti issued = record {
  token_use = "access";
  user_id = "u1";
  tenant_id = "t1";
  role = "operator";
  key = "k1";
  subject = "u1";
  issuer = "parkhub";
  id = jti;
  issued_at = issued;
  expires_at = issued + 900;
}

abbrev pub refresh_of : String → ℕ → Claims
refresh_of jti issued = record {
  token_use = "refresh";
  user_id = "";
  tenant_id = "";
  role = "";
  key = "";
  subject = "u1";
  issuer = "parkhub";
  id = jti;
  issued_at = issued;
  expires_at = issued + 604_800;
}

abbrev sign : Claims → Result String String
sign c =
    if same_claims c (access_of "a1" 1_000)
    then ok "access one"
    else if same_claims c (refresh_of "r1" 1_000)
    then ok "refresh one"
    else if same_claims c (access_of "a2" 2_000)
    then ok "access two"
    else if same_claims c (refresh_of "r2" 2_000)
    then ok "refresh two"
    else err "unknown claims"

abbrev claims_of : String → Option Claims
claims_of token =
    if str_eq token "access one"
    then some (access_of "a1" 1_000)
    else if str_eq token "refresh one"
    then some (refresh_of "r1" 1_000)
    else if str_eq token "access two"
    then some (access_of "a2" 2_000)
    else if str_eq token "refresh two"
    then some (refresh_of "r2" 2_000)
    else none

abbrev in_time : ℕ → Option Claims → Result String Claims
in_time now none = err "token is malformed"
in_time now (some c) = if ltb now (c.expires_at * 1000) then ok c else err "token is expired"

unsigned : (token : String) → ◌≡◌ {A = Result String String} (err "unknown claims") (ok token) → ⊥
unsigned token h = ground (arith, h)

-- A token that stands for these claims.
signed_as :
    (t token : String) (c d : Claims) (x : Result String String)
    → same_claims c d ≡ true
    → x ≡ ok t
    → x ≡ ok token
    → claims_of t ≡ some d
    → claims_of token ≡ some c
signed_as t token c d x e h k known =
    ap claims_of (ok_eq x token t k h) ∙ known ∙ ap some (sym (same_claims_eq c d e))

pub signed : (c : Claims) (token : String) → sign c ≡ ok token → claims_of token ≡ some c
signed c token k = elim (Bool-cases (same_claims c (access_of "a1" 1_000))) [
  | inl e ↦ signed_as "access one" token c (access_of "a1" 1_000) (sign c) e (rw e refl) k refl
  | inr e₁ ↦ elim (Bool-cases (same_claims c (refresh_of "r1" 1_000))) [
    | inl e ↦
        signed_as "refresh one" token c (refresh_of "r1" 1_000) (sign c) e (rw (e₁, e) refl) k refl
    | inr e₂ ↦ elim (Bool-cases (same_claims c (access_of "a2" 2_000))) [
      | inl e ↦
          signed_as "access two" token c (access_of "a2" 2_000) (sign c) e (rw (e₁, e₂, e) refl) k
            refl
      | inr e₃ ↦ elim (Bool-cases (same_claims c (refresh_of "r2" 2_000))) [
        | inl e ↦
            signed_as "refresh two" token c (refresh_of "r2" 2_000) (sign c) e
              (rw (e₁, e₂, e₃, e) refl) k refl
        | inr e ↦ absurd (unsigned token (rw (e₁, e₂, e₃, e) at k))
      ]
    ]
  ]
]

pub early_ltb : (a b : ℕ) → a < b → ltb a b ≡ true
early_ltb a b h = ground (arith, h)

abbrev pub signer : TokenSigner
signer = record {
  own_issuer = "parkhub";
  sign = sign;
  verify = λ now token. in_time now (claims_of token);
  verify_law = λ c token now h issuer early.
      rw (signed c token h) (rw (early_ltb now (c.expires_at * 1000) early) refl);
}

-- Two rows clash on the primary key or on the unique index.
abbrev clash : UserRow → UserRow → Bool
clash a b = str_eq a.id b.id || str_eq a.username b.username

abbrev pub users : Gorm UserRow
users = table_memory clash

abbrev pub ann : UserRow
ann = record {
  id = "u1";
  tenant_id = some "t1";
  username = "ann";
  email = none;
  phone = some "13800138000";
  password_hash = "$secret99";
  real_name = "Ann";
  role = operator;
  status = active;
  last_login_at = none;
  created_at = 5;
  updated_at = 5;
}

abbrev pub table : Table UserRow
table = record { content = ann ∷ []; time = 77 }

abbrev pub no_tokens : Entries
no_tokens k = none

-- The verifier knows one code, and has no state.
abbrev pub service : AuthService users memory (Unit {0})
service = record {
  bcrypt = bcrypt;
  signer = signer;
  verify_code =
      λ phone code st. (if str_eq code "123456" then ok tt else err (sms code_mismatch), st);
  cfg = cfg;
  access_ttl = 900_000;
  refresh_ttl = 604_800_000;
}

abbrev pub start : State users memory (Unit {0})
start = ((table, no_tokens), tt)
