-- ===== src/Parking/LaneService.antt =====
-- The lane service, internal/domains/parking/service/lane_service.go and interface.go, over the lanes and
-- the device service. Each lane to be made comes with the id that it draws; Go's order of a map's
-- iteration is the argument `order`.
pub mod Missing
use Prim.Native.String.{◌++◌}
use parkhub_api.Base.{
  ℕ, Bool, true, false, not, ◌||◌, Option, none, some, String, List, [], ◌∷◌, map, keep, any,
  Result, ok, err, Action, ◌>>=◌, ◌>>◌, pure, raise_if, lift, catch, or_else, str_eq, if◌then◌else◌,
}
use parkhub_api.Base.Int.{pos}
use parkhub_api.Base.Maps.{Map, lookup, insert}
use parkhub_api.Errors.{Error, other, wrap}
use parkhub_api.Gorm.{Gorm}
use parkhub_api.Iot.Device.{Device, DeviceStatus, disabled, other_status, same_status}
use parkhub_api.Iot.Dao.{DeviceRow}
use parkhub_api.Iot.Service as DeviceService
use parkhub_api.Iot.Service.{Binding}
use parkhub_api.Parking.Lane.{
  Lane, LaneType, LaneDeviceInfo, LaneWithDevice, new_lane, set_device, clear_device,
}
use parkhub_api.Parking.LaneDao.{LaneRow}
use parkhub_api.Parking.LaneRepo

pub record AvailableDevice : Type 0 where
  pub id : String
  pub name : String
  pub status : DeviceStatus

pub record LaneConfigResponse : Type 0 where
  pub lanes : List LaneWithDevice
  pub available_devices : List AvailableDevice

pub record LaneInput : Type 0 where
  pub id : Option String
  pub name : String
  pub type : LaneType
  pub device_id : Option String

pub record UpdateLanesRequest : Type 0 where
  pub parking_lot_id : String
  -- with the id that a new lane draws
  pub lanes : List (LaneInput × String)

pub record UpdateLanesResponse : Type 0 where
  pub lanes : List LaneWithDevice

-- `boundDevices[id]`
abbrev pub on_lane : String → Lane → Bool
on_lane id l = elim l.device_id [ none ↦ false | some d ↦ str_eq d id ]

abbrev pub is_available : List Lane → Device → Bool
is_available lanes d = not (any (on_lane d.id) lanes || same_status d.status disabled)

abbrev pub to_available : Device → AvailableDevice
to_available d = record { id = d.id; name = d.name; status = d.status }

-- `deviceMap[id]`: the last device with this id.
abbrev pub device_of : String → List Device → Option Device
device_of id [] = none
device_of id (d ∷ ds) = elim (device_of id ds) [
  | some e ↦ some e
  | none ↦ if str_eq d.id id then some d else none
]

abbrev pub info : Option Device → Option LaneDeviceInfo
info none = none
info (some d) =
    some (record { id = d.id; name = d.name; status = d.status; last_heartbeat = d.last_heartbeat })

abbrev pub with_device : List Device → Lane → LaneWithDevice
with_device devices l = record {
  lane = l;
  device = elim l.device_id [ none ↦ none | some id ↦ info (device_of id devices) ];
}

unfoldable pub config_of : List Lane → List Device → LaneConfigResponse
config_of lanes devices = record {
  lanes = map (with_device devices) lanes;
  available_devices = map to_available (keep (is_available lanes) devices);
}

unfoldable pub device_id_equal : Option String → Option String → Bool
device_id_equal none none = true
device_id_equal none (some b) = false
device_id_equal (some a) none = false
device_id_equal (some a) (some b) = str_eq a b

-- `x != nil && *x != ""`
abbrev pub given : Option String → Option String
given none = none
given (some s) = if str_eq s "" then none else some s

-- `requestIDs[id]`
abbrev pub is_requested : List (LaneInput × String) → String → Bool
is_requested inputs id =
    any (λ i. elim (given i.0.id) [ none ↦ false | some j ↦ str_eq j id ]) inputs

-- `currentMap`
abbrev pub current_map : List Lane → Map Lane → Map Lane
current_map [] m = m
current_map (l ∷ ls) m = current_map ls (insert l.id l m)

abbrev pub current_lane : String → Option Lane → Result Error Lane
current_lane id none = err (other ("lane " ++ id ++ " not found"))
current_lane id (some lane) = ok lane

-- Whether a call succeeds.
abbrev pub attempt : {S A : Type 0} → Action S Error A → Action S Error Bool
attempt m s = let (r, s') = m s in (ok (elim r [ ok a ↦ true | err e ↦ false ]), s')

module _ (lanes : Gorm LaneRow) (devices : Gorm DeviceRow) where
  -- The two databases.
  abbrev pub State : Type 0
  State = lanes.Db × devices.Db

  abbrev pub on_lanes : {A : Type 0} → Action lanes.Db Error A → Action State Error A
  on_lanes m (l, d) = let (x, l') = m l in (x, (l', d))

  abbrev pub on_devices : {A : Type 0} → Action devices.Db Error A → Action State Error A
  on_devices m (l, d) = let (x, d') = m d in (x, (l, d'))

  -- The first page of devices, or none where the device service fails.
  abbrev pub list_devices : (String → String → Bool) → String → Action State Error (List Device)
  list_devices like tenant_id = or_else [] (
      on_devices (
        DeviceService.list devices like (record {
          tenant_id = tenant_id;
          status = other_status "";
          parking_lot_id = "";
          keyword = "";
          page = pos 1;
          page_size = pos 200;
        })
        >>= λ resp. pure resp.devices))

  unfoldable pub get_lane_config :
      (String → String → Bool) → String → String → Action State Error LaneConfigResponse
  get_lane_config like tenant_id parking_lot_id = do
    ls ← on_lanes (LaneRepo.list_by_parking_lot_id lanes tenant_id parking_lot_id)
    ds ← list_devices like tenant_id
    pure (config_of ls ds)

  module _ (tenant_id lot : String) (now : ℕ) where
    unfoldable pub bind_device : String → String → Action State Error Device
    bind_device device_id lane_id = on_devices (
        DeviceService.bind devices tenant_id
          (record { id = device_id; parking_lot_id = lot; gate_id = lane_id }) now)

    -- A failure to unbind is logged or dropped.
    unfoldable pub unbind_device : Option String → Action State Error (Unit {0})
    unbind_device none = pure tt
    unbind_device (some id) =
        attempt (on_devices (DeviceService.unbind devices tenant_id id now)) >>= λ _. pure tt

    -- Phase 1.
    unfoldable pub delete_lane : String → Lane → Action State Error (Unit {0})
    delete_lane id lane =
        unbind_device lane.device_id
        >> catch (wrap ("delete lane " ++ id)) (on_lanes (LaneRepo.delete lanes tenant_id id))

    unfoldable pub delete_missing :
        (String → Bool) → List (String × Lane) → Action State Error (Unit {0})
    delete_missing requested [] = pure tt
    delete_missing requested ((id, lane) ∷ ls) =
        (if requested id then pure tt else delete_lane id lane) >> delete_missing requested ls

    -- Phase 2, a lane that is new.
    abbrev pub note_device : Lane → String → Bool → Action State Error (Unit {0})
    note_device lane device_id true =
        or_else tt (on_lanes (LaneRepo.update lanes (set_device device_id now lane)))
    note_device lane device_id false = pure tt

    abbrev pub bind_new : Lane → Option String → Action State Error (Unit {0})
    bind_new lane none = pure tt
    bind_new lane (some id) = attempt (bind_device id lane.id) >>= note_device lane id

    unfoldable pub create_lane : LaneInput → String → Action State Error (Unit {0})
    create_lane input uuid = do
      exists ← on_lanes (LaneRepo.exists_by_name lanes lot input.name)
      raise_if exists (other ("lane name '" ++ input.name ++ "' already exists"))
      let lane = new_lane uuid tenant_id lot input.name input.type now
      catch (wrap "create lane") (on_lanes (LaneRepo.create lanes lane))
      bind_new lane (given input.device_id)

    -- A lane that is there. `bind_old` makes the change of devices.
    abbrev pub bind_old : Lane → Option String → Action State Error Lane
    bind_old lane none = pure (clear_device now lane)
    bind_old lane (some id) = attempt (bind_device id lane.id) >>= λ bound.
        pure (if bound then set_device id now lane else clear_device now lane)

    unfoldable pub rebind : Lane → Option String → Action State Error Lane
    rebind lane new_device_id =
        if device_id_equal lane.device_id new_device_id
        then pure lane
        else unbind_device lane.device_id >> bind_old lane (given new_device_id)

    unfoldable pub update_lane : String → LaneInput → Lane → Action State Error Lane
    update_lane id input lane = do
      bound ← rebind lane input.device_id
      let lane' = record bound { name = input.name }
      catch (wrap ("update lane " ++ id)) (on_lanes (LaneRepo.update lanes lane'))
      pure lane'

    -- One round; the lanes of `currentMap` are pointers, so a change of one is seen by later rounds.
    abbrev pub apply_as :
        Map Lane → LaneInput → String → Option String → Action State Error (Map Lane)
    apply_as current input uuid none = create_lane input uuid >> pure current
    apply_as current input uuid (some id) = do
      lane ← lift (current_lane id (lookup id current))
      lane' ← update_lane id input lane
      pure (insert id lane' current)

    unfoldable pub apply_inputs :
        Map Lane → List (LaneInput × String) → Action State Error (Unit {0})
    apply_inputs current [] = pure tt
    apply_inputs current ((input, uuid) ∷ inputs) =
        apply_as current input uuid (given input.id) >>= λ current'. apply_inputs current' inputs

  unfoldable pub update_lanes :
      (Map Lane → List (String × Lane))
      → String
      → UpdateLanesRequest
      → ℕ
      → Action State Error UpdateLanesResponse
  update_lanes order tenant_id req now = do
    ls ← on_lanes (LaneRepo.list_by_parking_lot_id lanes tenant_id req.parking_lot_id)
    let current = current_map ls []
    delete_missing tenant_id req.parking_lot_id now (is_requested req.lanes) (order current)
    apply_inputs tenant_id req.parking_lot_id now current req.lanes
    final ← on_lanes (LaneRepo.list_by_parking_lot_id lanes tenant_id req.parking_lot_id)
    pure (record { lanes = map (λ l. record { lane = l; device = none }) final })
