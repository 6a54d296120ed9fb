-- ===== src/Tcc/System.antt =====
-- All that can happen to one transaction: `twoPhaseCommit` and the monitors of any managers, in any
-- order.
use yukino_go.Base.{
  ℕ, ◌+◌, ◌-◌, ◌≤◌, ◌≡◌, Bool, true, false, if◌then◌else◌, List, [], ◌∷◌, ◌++◌, In, Res, ok, ◌>>=◌,
}
use yukino_go.Tcc.{
  ComponentId, Registry, Transaction, TxStatus, TxRecord, Call, Answer, ack, get_status, create_tx,
  tx_update, record_to_transaction, advance_progress, request_components, Error,
}

-- A transaction as it was read.
pub record Snapshot : Type 0 where
  pub tx : Transaction
  pub read_at : ℕ

-- The status that `advanceProgress` goes by.
pub record Decision : Type 0 where
  pub snapshot : Snapshot
  pub decided_at : ℕ
  pub status : TxStatus

-- The row of the transaction, the clock and the deadline of the context of `Transaction`; and what
-- has happened: whether a component acknowledged its `Try`, what was read, decided and called, and
-- which calls were acknowledged.
pub record System : Type 0 where
  pub row : TxRecord
  pub now : ℕ
  pub deadline : ℕ
  pub tried : List (ComponentId × Bool)
  pub seen : List Snapshot
  pub decisions : List Decision
  pub calls : List Call
  pub acks : List Call

-- `CreateTX` has returned.
unfoldable pub start : List ComponentId → ℕ → ℕ → System
start ids deadline now = record {
  row = create_tx now ids;
  now = now;
  deadline = deadline;
  tried = [];
  seen = [];
  decisions = [];
  calls = [];
  acks = [];
}

-- `Transaction` up to there, for requests of these components.
unfoldable pub transaction : List ComponentId → Registry → ℕ → ℕ → Res Error System
transaction requests r deadline now =
    request_components requests r >>= λ ids. ok (start ids deadline now)

abbrev is_ack : Answer → Bool
is_ack ack = true
is_ack _ = false

-- The calls that are answered with `ACK`.
abbrev pub acked_calls : (Call → Answer) → List Call → List Call
acked_calls answer [] = []
acked_calls answer (call ∷ calls) =
    let others = acked_calls answer calls in if is_ack (answer call) then call ∷ others else others

-- `advanceProgress` of what was read, with the status of the time `at`. The step stands where
-- `TXSubmit` does, or where the manager stops: what is called before reads nothing of the store.
unfoldable pub advanced :
    Registry → (Call → Answer) → Bool → (at timeout : ℕ) → Snapshot → System → System
advanced r answer db_fails at timeout snapshot s =
    let (calls, row, end) = advance_progress r answer db_fails at timeout snapshot.tx s.row in
    record s {
      row = row;
      decisions =
          record {
            snapshot = snapshot;
            decided_at = at;
            status = get_status (at - timeout) snapshot.tx;
          }
          ∷ s.decisions;
      calls = calls ++ s.calls;
      acks = acked_calls answer calls ++ s.acks;
    }

-- A step: time passes; a component answers `Try`; the answer is written, for which the context must
-- not be over, since the database refuses it then; the row is read, by `GetTX` or `GetHangingTXs`;
-- and `advanceProgress` of what was read. Calls that fail without an effect are no step.
pub data Step (timeout : ℕ) (s t : System) : Type 0 where
  passes : (d : ℕ) → t ≡ record s { now = s.now + d } → Step timeout s t
  tries :
      (id : ComponentId) (accept : Bool)
      → t ≡ record s { tried = (id, accept) ∷ s.tried }
      → Step timeout s t
  updates :
      (id : ComponentId) (accept : Bool) (row : TxRecord)
      → In (id, accept) s.tried
      → s.now ≤ s.deadline
      → tx_update id accept s.row ≡ ok row
      → t ≡ record s { row = row }
      → Step timeout s t
  reads :
      t ≡ record s { seen = record { tx = record_to_transaction s.row; read_at = s.now } ∷ s.seen }
      → Step timeout s t
  advances :
      (r : Registry) (answer : Call → Answer) (db_fails : Bool) (at : ℕ) (snapshot : Snapshot)
      → In snapshot s.seen
      → snapshot.read_at ≤ at
      → at ≤ s.now
      → t ≡ advanced r answer db_fails at timeout snapshot s
      → Step timeout s t

pub data Reach (timeout : ℕ) (s : System) : System → Type 0 where
  begins : Reach timeout s s
  goes_on : {t u : System} → Reach timeout s t → Step timeout t u → Reach timeout s u
