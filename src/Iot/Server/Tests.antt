-- ===== src/Iot/Server/Tests.antt =====
-- The theorems on the device server at a small table in memory, and runs of its handlers.
use parkhub_api.Base.{
  ℕ, ◌≡◌, ◌≢◌, refl, String, List, [], ◌∷◌, err, false, arith, eq_iff, if◌then◌else◌, str_eq,
}
use parkhub_api.Base.Int.{negsuc}
use parkhub_api.Errors.{iot, wrap, device_offline}
use parkhub_api.Grpc.{
  extract_tenant_id, to_grpc_error, status_error, unauthenticated, failed_precondition,
}
use parkhub_api.Iot.Service.Calls.{perform}
use parkhub_api.Iot.Server
use parkhub_api.Iot.Server.Calls.{Request, call_of, is_incomplete, serve, serve_lem}
use parkhub_api.Iot.Server.Isolation.{rows_of, serve_all, serve_all-rows_of}
use parkhub_api.Iot.Tests.{mem, table, to_gate}

serve_lem_example : serve mem "north" (Request.bind to_gate, 9_000_000) table ≡ (
    if str_eq "north" ""
    then table
    else if is_incomplete (Request.bind to_gate)
    then table
    else perform mem "north" (call_of (Request.bind to_gate), 9_000_000) table)
serve_lem_example = serve_lem mem "north" (Request.bind to_gate) 9_000_000 table

abbrev requests : List (String × Request × ℕ)
requests =
    ("north", Request.bind to_gate, 9_000_000)
    ∷ ("", Request.delete "bar-1", 9_000_001)
    ∷ ("north", Request.batch_disable ("cam-1" ∷ "bar-1" ∷ []), 9_000_002)
    ∷ []

apart : (a b : String) → str_eq a b ≡ false → a ≢ b
apart a b h = ground (arith, h, eq_iff a b)

serve_all-rows_of_example :
    rows_of "south" (serve_all mem requests table).content ≡ rows_of "south" table.content
serve_all-rows_of_example =
    serve_all-rows_of mem "south" requests table
      (apart "north" "south" refl, (apart "" "south" refl, (apart "north" "south" refl, tt)))

get_without_tenant :
    Server.get_device mem "" "cam-1" table
    ≡ (err (status_error unauthenticated "missing x-tenant-id"), table)
unfolding Server.get_device Server.on_device extract_tenant_id
get_without_tenant = refl

offline_code :
    Server.to_device_grpc_error (wrap "send: " (iot device_offline))
    ≡ record { code = failed_precondition; cause = wrap "send: " (iot device_offline) }
unfolding Server.to_device_grpc_error to_grpc_error
offline_code = refl

wrapped_count : Server.to_int32 4_294_967_295 ≡ negsuc 0
unfolding Server.to_int32
wrapped_count = refl
