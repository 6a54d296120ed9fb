-- ===== src/Tcc.antt =====
-- components/tcc: model.go, tccregister.go and the steps of txmanager.go, over the store of
-- apps/task_flow/server/internal/engine/tccstore.go. A component is its ID.
pub mod System
pub mod Decisions
pub mod Advance
pub mod Atomic
pub mod Safe
mod Tests
use yukino_go.Base.{
  ℕ, ◌-◌, ◌*◌, Bool, true, false, not, ◌||◌, Option, none, some, List, [], ◌∷◌, ◌++◌, map,
  bytes_beq, ltb, if◌then◌else◌, Res, ok, err, panic, ◌>>=◌,
}

-- The bytes of a string.
abbrev pub ComponentId : Type 0
ComponentId = List ℕ

pub data TxStatus : Type 0 where
  tx_hanging : TxStatus
  tx_successful : TxStatus
  tx_failure : TxStatus

pub data ComponentTryStatus : Type 0 where
  try_hanging : ComponentTryStatus
  try_successful : ComponentTryStatus
  try_failure : ComponentTryStatus

pub record ComponentTryEntity : Type 0 where
  pub component_id : ComponentId
  pub try_status : ComponentTryStatus

pub record Transaction : Type 0 where
  pub components : List ComponentTryEntity
  pub status : TxStatus
  pub created_at : ℕ

-- The errors of the code, and those of the database.
pub data Error : Type 0 where
  empty_task : Error
  invalid_component_request : Error
  repeat_component : ComponentId → Error
  not_existed : ComponentId → Error
  unknown_component : ComponentId → Error
  already_settled : ComponentTryStatus → Error
  already_submitted : TxStatus → Error
  get_component_failed : Error
  ack_failed : ComponentId → Error
  database : Error
  from_component : ℕ → Error

-- The loop of `getStatus`: whether a component is left hanging, or none if one failed.
unfoldable pub hanging_exist : List ComponentTryEntity → Option Bool
hanging_exist [] = some false
hanging_exist (c ∷ cs) =
    let rest = hanging_exist cs in
    elim c.try_status [
      | try_failure ↦ none
      | try_hanging ↦ elim rest [ none ↦ none | some b ↦ some true ]
      | try_successful ↦ rest
    ]

unfoldable pub get_status : ℕ → Transaction → TxStatus
get_status created_before tx = elim (hanging_exist tx.components) [
  | none ↦ tx_failure
  | some hanging ↦
      if hanging
      then if ltb tx.created_at created_before then tx_failure else tx_hanging
      else tx_successful
]

-- The components that are registered.
abbrev pub Registry : Type 0
Registry = List ComponentId

unfoldable pub existed : ComponentId → Registry → Bool
existed id [] = false
existed id (x ∷ xs) = bytes_beq x id || existed id xs

unfoldable pub register : ComponentId → Registry → Res Error Registry
register id r = if existed id r then err (repeat_component id) else ok (id ∷ r)

unfoldable pub get_components : List ComponentId → Registry → Res Error (List ComponentId)
get_components [] r = ok []
get_components (id ∷ ids) r =
    let rest = get_components ids r in
    if existed id r then (rest >>= λ components. ok (id ∷ components)) else err (not_existed id)

-- The loop over the requests of `TXManager.getComponents`; `seen` are the IDs before. What a
-- request holds is passed to `Try` only, and a nil request stands as one without an ID.
unfoldable pub distinct_ids : List ComponentId → List ComponentId → Res Error (List ComponentId)
distinct_ids seen [] = ok []
distinct_ids seen (id ∷ ids) =
    let rest = distinct_ids (id ∷ seen) ids in
    if bytes_beq id []
    then err invalid_component_request
    else if existed id seen
    then err (repeat_component id)
    else rest >>= λ more. ok (id ∷ more)

unfoldable pub request_components : List ComponentId → Registry → Res Error (List ComponentId)
request_components [] r = err empty_task
request_components (id ∷ ids) r =
    distinct_ids [] (id ∷ ids) >>= λ component_ids. get_components component_ids r

-- A row of the store, po.TXRecord; the map of the statuses stands in it as JSON.
pub record TxRecord : Type 0 where
  pub component_try_statuses : List ComponentTryEntity
  pub status : TxStatus
  pub created_at : ℕ

abbrev pub hanging_entity : ComponentId → ComponentTryEntity
hanging_entity id = record { component_id = id; try_status = try_hanging }

unfoldable pub create_tx : ℕ → List ComponentId → TxRecord
create_tx now ids = record {
  component_try_statuses = map hanging_entity ids;
  status = tx_hanging;
  created_at = now;
}

abbrev pub new_status : Bool → ComponentTryStatus
new_status accept = if accept then try_successful else try_failure

-- A component that is in the map: it keeps the status that it has, or is settled.
unfoldable pub settle : ComponentTryStatus → ComponentTryStatus → Res Error ComponentTryStatus
settle try_hanging new = ok new
settle try_successful try_successful = ok try_successful
settle try_failure try_failure = ok try_failure
settle old new = err (already_settled old)

unfoldable pub tx_update_each :
    ComponentId → ComponentTryStatus → List ComponentTryEntity → Res Error (List ComponentTryEntity)
tx_update_each id new [] = err (unknown_component id)
tx_update_each id new (c ∷ cs) =
    let settled : Res Error (List ComponentTryEntity) =
      settle c.try_status new >>= λ st. ok (record c { try_status = st } ∷ cs) in
    let later : Res Error (List ComponentTryEntity) =
      tx_update_each id new cs >>= λ cs'. ok (c ∷ cs') in
    if bytes_beq c.component_id id then settled else later

unfoldable pub tx_update : ComponentId → Bool → TxRecord → Res Error TxRecord
tx_update id accept row = tx_update_each id (new_status accept) row.component_try_statuses >>= λ cs.
    ok (record row { component_try_statuses = cs })

abbrev pub target : Bool → TxStatus
target success = if success then tx_successful else tx_failure

-- The status of a row that is to have a status: only one that is hanging is written.
unfoldable pub submit_status : Bool → TxStatus → Res Error TxStatus
submit_status success tx_hanging = ok (target success)
submit_status true tx_successful = ok tx_successful
submit_status false tx_failure = ok tx_failure
submit_status success old = err (already_submitted old)

unfoldable pub tx_submit : Bool → TxRecord → Res Error TxRecord
tx_submit success row = submit_status success row.status >>= λ st. ok (record row { status = st })

unfoldable pub record_to_transaction : TxRecord → Transaction
record_to_transaction row = record {
  components = row.component_try_statuses;
  status = row.status;
  created_at = row.created_at;
}

-- A call of a component, and what it may answer.
pub data Call : Type 0 where
  confirm : ComponentId → Call
  cancel : ComponentId → Call

pub data Answer : Type 0 where
  failed : ℕ → Answer
  no_ack : Answer
  ack : Answer

abbrev pub confirm_or_cancel : Bool → ComponentId → Call
confirm_or_cancel success id = if success then confirm id else cancel id

-- What a call leads to, given what the loop does after it.
unfoldable pub after_call :
    ComponentId
    → Call
    → List Call × Res Error (Unit {0})
    → Answer
    → List Call × Res Error (Unit {0})
after_call id call later (failed e) = (call ∷ [], err (from_component e))
after_call id call later no_ack = (call ∷ [], err (ack_failed id))
after_call id call (calls, end) ack = (call ∷ calls, end)

-- The loop of `advanceProgress`: the calls that are made, and how it ends.
unfoldable pub call_each :
    Registry → (Call → Answer) → Bool → List ComponentTryEntity → List Call × Res Error (Unit {0})
call_each r answer success [] = ([], ok tt)
call_each r answer success (c ∷ cs) =
    let later = call_each r answer success cs in
    let call = confirm_or_cancel success c.component_id in
    if existed c.component_id r
    then after_call c.component_id call later (answer call)
    else ([], err get_component_failed)

-- `TXSubmit`, or the failure of the database.
abbrev pub submit : Bool → Bool → TxRecord → Res Error TxRecord
submit true success row = err database
submit false success row = tx_submit success row

-- The end of `advanceProgress`: the calls, the row, and the error.
unfoldable pub finish :
    TxRecord
    → Res Error TxRecord
    → List Call × Res Error (Unit {0})
    → List Call × TxRecord × Res Error (Unit {0})
finish row submitted (calls, err e) = (calls, row, err e)
finish row submitted (calls, panic) = (calls, row, panic)
finish row (ok row') (calls, ok u) = (calls, row', ok u)
finish row (err e) (calls, ok u) = (calls, row, err e)
finish row panic (calls, ok u) = (calls, row, panic)

-- `advanceProgress` at the time `now`, in a registry, with the answers of the components.
unfoldable pub advance_progress :
    Registry
    → (Call → Answer)
    → (db_fails : Bool) → (now timeout : ℕ) → Transaction
    → TxRecord
    → List Call × TxRecord × Res Error (Unit {0})
advance_progress r answer db_fails now timeout tx row = elim (get_status (now - timeout) tx) [
  | tx_hanging ↦ ([], row, ok tt)
  | tx_successful ↦ finish row (submit db_fails true row) (call_each r answer true tx.components)
  | tx_failure ↦ finish row (submit db_fails false row) (call_each r answer false tx.components)
]

-- `backOffTick`
unfoldable pub back_off_tick : ℕ → ℕ → ℕ
back_off_tick monitor_tick tick =
    if ltb (monitor_tick * 8) (tick * 2) then monitor_tick * 8 else tick * 2
