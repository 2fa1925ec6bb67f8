-- ===== src/Iot/Tests.antt =====
-- The IoT theorems at a small table in memory, and runs of the model.
use parkhub_api.Base.{ℕ, ◌≡◌, ◌≢◌, ◌↔◌, refl, List, [], ◌∷◌, none, some, ok, All, str_eq, contains}
use parkhub_api.Base.Int.{pos, negsuc}
use parkhub_api.Errors.{Error}
use parkhub_api.Gorm.{Gorm}
use parkhub_api.Gorm.Logic.{Post}
use parkhub_api.Gorm.Memory.{Table, memory}
use parkhub_api.Gorm.Transaction.{Committed, for_each}
use parkhub_api.Iot.Device
use parkhub_api.Iot.Device.{
  Device, integrated, camera_only, pending, active, offline, disabled, other_status, new_device,
}
use parkhub_api.Iot.Device.Lifecycle.{
  IsWellFormed, Event, apply, run, run-IsWellFormed, Moves, Suits, apply-Moves,
}
use parkhub_api.Iot.Dao.{DeviceRow}
use parkhub_api.Iot.Repo.{to_domain_device, to_dao_device, to_dao_device-to_domain_device}
use parkhub_api.Iot.Service
use parkhub_api.Iot.Service.{Binding, ListDevicesRequest}
use parkhub_api.Iot.Service.Calls.{Call, perform_all}
use parkhub_api.Iot.Service.Isolation.{of_others, perform_all-of_others}
use parkhub_api.Iot.Service.WellFormed.{RowIsWellFormed, perform_all-IsWellFormed}
use parkhub_api.Iot.Service.Bindings.{
  Each, IsBoundTo, IsUnbound, IsRefused, IsDeleted, bind-bind, unbind-unbind, delete_lem,
}
use parkhub_api.Iot.Service.Batch.{AllHave, batch_disable_all_or_none, batch_enable_all_or_none}
use parkhub_api.Iot.Service.Stats.{IsStats, get_stats_counts}
use parkhub_api.Iot.Service.Reads.{IsAnswer, IsSent, list_lem, send_command_lem}

abbrev camera : DeviceRow
camera = record {
  id = "cam-1";
  tenant_id = "north";
  name = "Camera";
  type = camera_only;
  status = pending;
  firmware_version = "1.0";
  last_heartbeat_at = some 5;
  parking_lot_id = none;
  gate_id = none;
  created_at = 1;
  updated_at = 1;
}

abbrev barrier : DeviceRow
barrier = record camera {
  id = "bar-1";
  tenant_id = "south";
  status = active;
  parking_lot_id = some "lot-9";
  gate_id = some "gate-9";
}

abbrev pub mem : Gorm DeviceRow
mem = memory (λ a b. str_eq a.id b.id)

abbrev pub table : Table DeviceRow
table = record { content = camera ∷ barrier ∷ []; time = 40 }

abbrev pub to_gate : Binding
to_gate = record { id = "cam-1"; parking_lot_id = "lot-1"; gate_id = "gate-1" }

abbrev calls : List (Call × ℕ)
calls =
    (Call.bind to_gate, 9_000_000)
    ∷ (Call.batch_disable ("cam-1" ∷ "bar-1" ∷ []), 9_000_001)
    ∷ (Call.delete "cam-1", 9_000_002)
    ∷ []

-- What gorm stores when "cam-1" is bound.
abbrev bound_camera : DeviceRow
bound_camera = record camera {
  status = active;
  parking_lot_id = some "lot-1";
  gate_id = some "gate-1";
  updated_at = 40;
}

abbrev bound_table : Table DeviceRow
bound_table = record { content = bound_camera ∷ barrier ∷ []; time = 40 }

abbrev bound_device : Device
bound_device = record {
  id = "cam-1";
  tenant_id = "north";
  name = "Camera";
  type = camera_only;
  status = active;
  firmware_version = "1.0";
  last_heartbeat = some 5_000_000;
  parking_lot_id = some "lot-1";
  gate_id = some "gate-1";
  created_at = 1_000_000;
  updated_at = 9_000_000;
}

bind_camera : Service.bind mem "north" to_gate 9_000_000 table ≡ (ok bound_device, bound_table)
unfolding Service.bind Service.change Device.bind to_domain_device to_dao_device
    parkhub_api.Iot.Repo.get_by_id parkhub_api.Iot.Repo.update parkhub_api.Iot.Dao.find_by_id
    parkhub_api.Iot.Dao.update
bind_camera = refl

-- A batch in which one device is disabled already: the first device is not disabled either.
batch_rolled_back : (Service.batch_disable mem "south" ("bar-1" ∷ "bar-1" ∷ []) 7 table).2 ≡ table
unfolding Service.batch_disable for_each Service.change_round Device.disable to_domain_device
    to_dao_device parkhub_api.Iot.Repo.get_by_id parkhub_api.Iot.Repo.update
    parkhub_api.Iot.Dao.find_by_id parkhub_api.Iot.Dao.update
batch_rolled_back = refl

-- A device that stands twice in a batch is bound twice, though a bound device cannot be bound: each
-- binding is checked before any is written.
batch_bind_twice :
    let (n, e, d) =
      Service.batch_bind mem "north"
        (to_gate ∷ record to_gate { parking_lot_id = "lot-2" } ∷ [])
        9_000_000
        table in
    (n ≡ 2)
    × (e ≡ none)
    × (d.content ≡ record bound_camera { parking_lot_id = some "lot-2" } ∷ barrier ∷ [])
unfolding Service.batch_bind Service.bind_all for_each Device.bind to_domain_device to_dao_device
    parkhub_api.Iot.Repo.get_by_id parkhub_api.Iot.Repo.update parkhub_api.Iot.Dao.find_by_id
    parkhub_api.Iot.Dao.update
batch_bind_twice = (refl, refl, refl)

to_dao_device-to_domain_device_example : to_dao_device (to_domain_device camera) ≡ camera
to_dao_device-to_domain_device_example = to_dao_device-to_domain_device camera

abbrev events : List (Event × ℕ)
events =
    (Event.bind "lot-1" "gate-1", 1)
    ∷ (Event.go_offline, 2)
    ∷ (Event.activate, 3)
    ∷ (Event.disable, 4)
    ∷ []

bound_device-IsWellFormed : IsWellFormed bound_device
unfolding to_domain_device
bound_device-IsWellFormed = record { gate_with_lot = refl; pending_unbound = λ h. cc }

run-IsWellFormed_example :
    IsWellFormed (run events bound_device)
    × (bound_device.status ≢ pending → (run events bound_device).status ≢ pending)
run-IsWellFormed_example = run-IsWellFormed events bound_device bound_device-IsWellFormed

apply-Moves_example :
    ((d' : Device) × (apply Event.go_offline 7 bound_device ≡ ok d') × (d'.status ≡ offline))
    ↔ (Moves Event.go_offline bound_device.status offline × Suits Event.go_offline bound_device)
apply-Moves_example = apply-Moves Event.go_offline 7 bound_device offline

perform_all-of_others_example :
    of_others "north" (perform_all mem "north" calls table).content
    ≡ of_others "north" table.content
perform_all-of_others_example = perform_all-of_others mem "north" calls table

table-IsWellFormed : All RowIsWellFormed table.content
unfolding to_domain_device
table-IsWellFormed = (
  record { gate_with_lot = refl; pending_unbound = λ h. refl },
  (record { gate_with_lot = refl; pending_unbound = λ h. cc }, tt),
)

perform_all-IsWellFormed_example : All RowIsWellFormed (perform_all mem "north" calls table).content
perform_all-IsWellFormed_example =
    perform_all-IsWellFormed mem "north" calls table table-IsWellFormed

bind-bind_example :
    Each "north" "cam-1" (IsBoundTo "lot-1" "gate-1") bound_table.content
    × IsRefused mem bound_table (Service.bind mem "north" to_gate 10_000_000 bound_table)
bind-bind_example =
    bind-bind mem "north" to_gate to_gate 9_000_000 10_000_000 table bound_table bound_device
      bind_camera refl

abbrev freed_table : Table DeviceRow
freed_table = record {
  content = camera ∷ record barrier { parking_lot_id = none; gate_id = none; updated_at = 40 } ∷ [];
  time = 40;
}

abbrev freed_device : Device
freed_device = record bound_device {
  id = "bar-1";
  tenant_id = "south";
  parking_lot_id = none;
  gate_id = none;
  updated_at = 7;
}

unbind_barrier : Service.unbind mem "south" "bar-1" 7 table ≡ (ok freed_device, freed_table)
unfolding Service.unbind Service.change Device.unbind to_domain_device to_dao_device
    parkhub_api.Iot.Repo.get_by_id parkhub_api.Iot.Repo.update parkhub_api.Iot.Dao.find_by_id
    parkhub_api.Iot.Dao.update
unbind_barrier = refl

unbind-unbind_example :
    Each "south" "bar-1" IsUnbound freed_table.content
    × IsRefused mem freed_table (Service.unbind mem "south" "bar-1" 8 freed_table)
unbind-unbind_example =
    unbind-unbind mem "south" "bar-1" 7 8 table freed_table freed_device unbind_barrier

delete_lem_example :
    Post mem {E = Error}
      (λ _. IsDeleted mem "north" "cam-1" table.content)
      (λ rs. rs ≡ table.content)
      (Service.delete mem "north" "cam-1" table)
delete_lem_example = delete_lem mem "north" "cam-1" table

batch_disable_all_or_none_example :
    Committed mem
      (AllHave "north" disabled ("cam-1" ∷ []))
      1
      table
      (Service.batch_disable mem "north" ("cam-1" ∷ []) 7 table)
batch_disable_all_or_none_example = batch_disable_all_or_none mem "north" ("cam-1" ∷ []) 7 table

batch_enable_all_or_none_example :
    Committed mem
      (AllHave "north" active ("cam-1" ∷ []))
      1
      table
      (Service.batch_enable mem "north" ("cam-1" ∷ []) 7 table)
batch_enable_all_or_none_example = batch_enable_all_or_none mem "north" ("cam-1" ∷ []) 7 table

abbrev list_north : ListDevicesRequest
list_north = record {
  tenant_id = "north";
  status = other_status "";
  parking_lot_id = "";
  keyword = "Cam";
  page = negsuc 0;
  page_size = pos 500;
}

list_lem_example :
    Post mem {E = Error}
      (λ resp rs. (rs ≡ table.content) × IsAnswer contains list_north table.content resp)
      (λ rs. rs ≡ table.content)
      (Service.list mem contains list_north table)
list_lem_example = list_lem mem contains list_north table

send_command_lem_example :
    Post mem {E = Error}
      (λ resp rs. (rs ≡ table.content) × IsSent mem "north" "cam-1" "up" table.content)
      (λ rs. rs ≡ table.content)
      (Service.send_command mem "north" "cam-1" "up" table)
send_command_lem_example = send_command_lem mem "north" "cam-1" "up" table

get_stats_counts_example :
    Post mem {E = Error}
      (λ resp rs. (rs ≡ table.content) × IsStats "north" rs resp)
      (λ rs. rs ≡ table.content)
      (Service.get_stats mem "north" table)
get_stats_counts_example = get_stats_counts mem "north" table
