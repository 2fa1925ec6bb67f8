-- ===== src/Identity/RefreshTokens.antt =====
-- The refresh tokens in Redis, internal/domains/identity/repository/cache/refresh_token_repo.go.
pub mod Live
use Prim.Native.String.{◌++◌}
use parkhub_api.Base.{ℕ, Option, none, some, String, Action, catch}
use parkhub_api.Errors.{Error, other}
use parkhub_api.Redis.{Redis, Script, get, del, return}

abbrev pub refresh_key : String → String
refresh_key jti = "auth:refresh:" ++ jti

-- `consumeScript`, behind its `GET`, and the whole of it.
abbrev pub consume_value : String → Option String → Script (Option String)
consume_value key none = return none
consume_value key (some val) = del key (return (some val))

unfoldable pub consume_script : String → Script (Option String)
consume_script key = get key (consume_value key)

module _ (r : Redis) where
  open r use {Store}

  unfoldable pub save : String → String → ℕ → Action Store Error (Unit {0})
  save jti user_id ttl = catch other (r.set (refresh_key jti) user_id ttl)

  -- `none` where the source answers with `false` and no error.
  unfoldable pub consume : String → Action Store Error (Option String)
  consume jti = catch other (r.eval (consume_script (refresh_key jti)))

  unfoldable pub revoke : String → Action Store Error (Unit {0})
  revoke jti = catch other (r.del (refresh_key jti))
