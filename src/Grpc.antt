-- ===== src/Grpc.antt =====
-- The translation of errors to gRPC statuses, pkg/grpcutil/errors.go, and what a server finds in
-- the context of a call, pkg/identityctx.
use parkhub_api.Base.{
  Bool, String, List, [], ◌∷◌, str_eq, Action, ◌>>◌, pure, raise_if, if◌then◌else◌,
}
use parkhub_api.Errors.{Error, other}

-- The codes of google.golang.org/grpc/codes that the servers use.
pub data Code : Type 0 where
  not_found already_exists failed_precondition invalid_argument : Code
  unauthenticated internal : Code

-- `status.Error(code, text)`; the text is the text of the error.
pub record Status : Type 0 where
  pub code : Code
  pub cause : Error

abbrev pub status_error : Code → String → Status
status_error c text = record { code = c; cause = other text }

-- A target is one of the error values of a domain.
pub record ErrorMapping (T : Type 0) : Type 0 where
  pub target : T
  pub code : Code

-- `is` is `errors.Is`.
unfoldable pub to_grpc_error :
    {T : Type 0} → (Error → T → Bool) → List (ErrorMapping T) → Error → Status
to_grpc_error is [] e = record { code = internal; cause = e }
to_grpc_error is (m ∷ ms) e =
    let rest = to_grpc_error is ms e in
    if is e m.target then record { code = m.code; cause = e } else rest

-- `extractTenantID`; the context holds the tenant, or the empty text.
unfoldable pub extract_tenant_id : {S : Type 0} → String → Action S Status String
extract_tenant_id tenant_id = do
  raise_if (str_eq tenant_id "") (status_error unauthenticated "missing x-tenant-id")
  pure tenant_id
