-- ===== src/JobStore/Schema.antt =====
-- The tables of the job store (app/core/job_store.py), and the results of its methods.
-- Clock readings are natural numbers of one small unit; NULL is `none`.
use ytdlbot.Prelude.{ℕ, Bool, true, false, String, Option, none, some, List, ◌&&◌, str_eq, ltb}
use ytdlbot.Json.{Fields}

pub data JobState : Type 0 where
  accepted running checkpointed completed failed : JobState

pub data DeliveryOutcome : Type 0 where
  success failure uncertain : DeliveryOutcome

-- `payload_expires_at`, which `purge` sets to infinity.
pub data Deadline : Type 0 where
  at : ℕ → Deadline
  never : Deadline

pub record JobRow : Type 0 where
  pub job_id : String
  pub update_id : ℕ
  pub payload : Fields
  pub state : JobState
  pub owner_id : Option String
  pub claim_expires_at : Option ℕ
  pub checkpoint : Option Fields
  pub error : Option String
  pub payload_expires_at : Deadline
  pub accepted_at : ℕ
  pub updated_at : ℕ

pub record DeliveryRow : Type 0 where
  pub job_id : String
  pub item_key : String
  pub outcome : DeliveryOutcome
  pub delivery_id : Option String
  pub updated_at : ℕ
  pub finalized : Bool
  pub owner_id : Option String

pub record WorkerLease : Type 0 where
  pub owner_id : String
  pub expires_at : ℕ

pub record Db : Type 0 where
  pub jobs : List JobRow
  pub deliveries : List DeliveryRow
  pub worker_lease : Option WorkerLease
  pub health_probe : Option ℕ

pub data StoreError : Type 0 where
  value_error type_error runtime_error overflow_error : StoreError

-- A method returns its value with the tables after it. A raise inside a transaction rolls it back,
-- and a raise before it writes nothing, so an error comes with no tables.
pub data Result (A : Type 0) : Type 0 where
  ok : A → Db → Result A
  raise : StoreError → Result A

-- The tables after a call.
abbrev pub after : {A : Type 0} → Db → Result A → Db
after db (ok a db') = db'
after db (raise e) = db

unfoldable pub state_eq : JobState → JobState → Bool
state_eq accepted accepted = true
state_eq running running = true
state_eq checkpointed checkpointed = true
state_eq completed completed = true
state_eq failed failed = true
state_eq _ _ = false

-- `outcome IN ('success', 'uncertain')`
unfoldable pub is_settled : DeliveryOutcome → Bool
is_settled failure = false
is_settled _ = true

-- `claim_expires_at > ?`, which NULL does not satisfy.
unfoldable pub is_live_until : Option ℕ → ℕ → Bool
is_live_until none now = false
is_live_until (some expiry) now = ltb now expiry

-- `owner_id = ?`, which NULL does not satisfy.
unfoldable pub is_owned_by : Option String → String → Bool
is_owned_by none owner = false
is_owned_by (some o) owner = str_eq o owner

-- The worker lease belongs to `owner` and has not run out.
unfoldable pub holds_lease : Option WorkerLease → String → ℕ → Bool
holds_lease none owner now = false
holds_lease (some l) owner now = str_eq l.owner_id owner && ltb now l.expires_at

-- The truth of a text, which `_validate_owner` and the checks of keys test.
unfoldable pub is_nonempty : String → Bool
is_nonempty String.[] = false
is_nonempty (String.◌∷◌ c s) = true
