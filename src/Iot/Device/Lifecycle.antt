-- ===== src/Iot/Device/Lifecycle.antt =====
-- What the methods of a device do to its status and its binding.
use parkhub_api.Base.{
  ◌↔◌, subst, some, none, ℕ, ◌≡◌, ◌≢◌, refl, true, false, String, Result, ok, err, List, [], ◌∷◌,
  is_some, arith, Result-cases, inl, inr,
}
use parkhub_api.Errors.{Error}
use parkhub_api.Iot.Device
use parkhub_api.Iot.Device.{
  Device, DeviceType, DeviceStatus, pending, active, offline, disabled, new_device,
}

-- A device that the code can have made: a lot and a gate come together, and a device that waits
-- for its first activation is not bound.
pub record IsWellFormed (d : Device) : Type 0 where
  pub gate_with_lot : is_some d.gate_id ≡ is_some d.parking_lot_id
  pub pending_unbound : d.status ≡ pending → is_some d.parking_lot_id ≡ false

-- A call of one of the methods that can fail.
pub data Event : Type 0 where
  activate go_offline disable enable unbind : Event
  bind : String → String → Event

unfoldable pub apply : Event → ℕ → Device → Result Error Device
unfolding Device.activate Device.go_offline Device.disable Device.enable Device.unbind Device.bind
apply Event.activate now d = Device.activate now d
apply Event.go_offline now d = Device.go_offline now d
apply Event.disable now d = Device.disable now d
apply Event.enable now d = Device.enable now d
apply Event.unbind now d = Device.unbind now d
apply (Event.bind lot gate) now d = Device.bind lot gate now d

pub new_device-IsWellFormed :
    (id name : String) (t : DeviceType) (v : String) (now : ℕ)
    → IsWellFormed (new_device id name t v now)
unfolding new_device
new_device-IsWellFormed id name t v now = ground arith

-- Every method that succeeds keeps the device well formed.
pub apply-IsWellFormed :
    (e : Event) (now : ℕ) (d d' : Device) → IsWellFormed d → apply e now d ≡ ok d' → IsWellFormed d'
unfolding apply
apply-IsWellFormed Event.activate now d d' w h = ground arith
apply-IsWellFormed Event.go_offline now d d' w h = ground arith
apply-IsWellFormed Event.disable now d d' w h = ground arith
apply-IsWellFormed Event.enable now d d' w h = ground arith
apply-IsWellFormed Event.unbind now d d' w h = ground arith
apply-IsWellFormed (Event.bind lot gate) now d d' w h = ground arith

-- The diagram of the statuses: which method leads from which status to which.
pub data Moves : Event → DeviceStatus → DeviceStatus → Type 0 where
  first_use : Moves Event.activate pending active
  recover : Moves Event.activate offline active
  lose : Moves Event.go_offline active offline
  shut : {s : DeviceStatus} → s ≢ disabled → Moves Event.disable s disabled
  reopen : Moves Event.enable disabled active
  first_bind : {lot gate : String} → Moves (Event.bind lot gate) pending active
  keep_bound :
      {lot gate : String} {s : DeviceStatus} → s ≢ pending → Moves (Event.bind lot gate) s s
  keep_unbound : {s : DeviceStatus} → Moves Event.unbind s s

-- What a method asks of the binding.
abbrev pub Suits : Event → Device → Type 0
Suits Event.unbind d = is_some d.parking_lot_id ≡ true
Suits (Event.bind lot gate) d = is_some d.parking_lot_id ≡ false
Suits _ d = Unit

ruleset moves = (first_use, recover, lose, shut, reopen, first_bind, keep_bound, keep_unbound)

apply-only_if :
    (e : Event) (now : ℕ) (d d' : Device)
    → apply e now d ≡ ok d'
    → Moves e d.status d'.status × Suits e d
unfolding apply
apply-only_if Event.activate now d d' h = grind (arith, moves)
apply-only_if Event.go_offline now d d' h = grind (arith, moves)
apply-only_if Event.disable now d d' h = grind (arith, moves)
apply-only_if Event.enable now d d' h = grind (arith, moves)
apply-only_if Event.unbind now d d' h = grind (arith, moves)
apply-only_if (Event.bind lot gate) now d d' h = grind (arith, moves)

apply-if :
    {e : Event} {a s : DeviceStatus} (m : Moves e a s) (now : ℕ) (d : Device)
    → d.status ≡ a
    → Suits e d
    → (d' : Device) × (apply e now d ≡ ok d') × (d'.status ≡ s)
unfolding apply
apply-if first_use now d h b = (record d { status = active; updated_at = now }, ground arith, refl)
apply-if recover now d h b = (record d { status = active; updated_at = now }, ground arith, refl)
apply-if lose now d h b = (record d { status = offline; updated_at = now }, ground arith, refl)
apply-if (shut ne) now d h b =
    (record d { status = disabled; updated_at = now }, ground (arith, ne, h), refl)
apply-if reopen now d h b = (record d { status = active; updated_at = now }, ground arith, refl)
apply-if (first_bind {lot} {gate}) now d h b = (
  record d { parking_lot_id = some lot; gate_id = some gate; status = active; updated_at = now },
  ground arith,
  refl,
)
apply-if (keep_bound {lot} {gate} ne) now d h b = (
  record d { parking_lot_id = some lot; gate_id = some gate; updated_at = now },
  ground (arith, ne, h),
  h,
)
apply-if keep_unbound now d h b =
    (record d { parking_lot_id = none; gate_id = none; updated_at = now }, ground arith, h)

-- The diagram is exact: a method succeeds and leaves a status just if the diagram lets this method lead to it
-- from the status of the device, and the device is bound for an unbind and not bound for a bind.
pub apply-Moves :
    (e : Event) (now : ℕ) (d : Device) (s : DeviceStatus)
    → ((d' : Device) × (apply e now d ≡ ok d') × (d'.status ≡ s)) ↔ (Moves e d.status s × Suits e d)
apply-Moves e now d s = (
  (λ (d', h, k). subst (λ t. Moves e d.status t × Suits e d) k (apply-only_if e now d d' h)),
  (λ (m, b). apply-if m now d refl b),
)

-- The calls that a device has seen, each with its time; one that fails leaves the device alone.
pub run : List (Event × ℕ) → Device → Device
run [] d = d
run ((e, now) ∷ es) d = elim (apply e now d) [ ok d' ↦ run es d' | err x ↦ run es d ]

Moves-pending : {e : Event} {s t : DeviceStatus} → Moves e s t → s ≢ pending → t ≢ pending
Moves-pending first_use n = λ h. cc
Moves-pending recover n = λ h. cc
Moves-pending lose n = λ h. cc
Moves-pending (shut ne) n = λ h. cc
Moves-pending reopen n = λ h. cc
Moves-pending first_bind n = λ h. cc
Moves-pending (keep_bound ne) n = n
Moves-pending keep_unbound n = n

-- What calls may rely on before and behind each.
abbrev Kept : Device → Device → Type 0
Kept d d' = (IsWellFormed d → IsWellFormed d') × (d.status ≢ pending → d'.status ≢ pending)

apply-Kept : (e : Event) (now : ℕ) (d d' : Device) → apply e now d ≡ ok d' → Kept d d'
apply-Kept e now d d' h =
    ((λ w. apply-IsWellFormed e now d d' w h), Moves-pending (apply-only_if e now d d' h).0)

run-Kept : (es : List (Event × ℕ)) (d : Device) → Kept d (run es d)
unfolding run
run-Kept [] d = ((λ w. w), (λ n. n))
run-Kept ((e, now) ∷ es) d = elim (Result-cases (apply e now d)) [
  | inl (d', h) ↦
      let first = apply-Kept e now d d' h in
      let rest = run-Kept es d' in
      rw (h, run) ((λ w. rest.0 (first.0 w)), (λ n. rest.1 (first.1 n)))
  | inr (x, h) ↦ rw (h, run) (run-Kept es d)
]

-- Any calls, some of which may fail, leave a well-formed device well formed; and one that does not wait
-- for its first activation does not wait for it behind them either.
pub run-IsWellFormed :
    (es : List (Event × ℕ)) (d : Device)
    → IsWellFormed d
    → IsWellFormed (run es d) × (d.status ≢ pending → (run es d).status ≢ pending)
run-IsWellFormed es d w = let k = run-Kept es d in (k.0 w, k.1)
