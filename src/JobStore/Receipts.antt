-- ===== src/JobStore/Receipts.antt =====
-- The report of a delivery attempt: when it counts, and what it leaves (the part of
-- app/core/job_store.py that finalizes receipts).
use ytdlbot.Prelude.{
  ℕ, ◌≡◌, Bool, true, false, not, ◌&&◌, String, Option, none, some, List, [], ◌∷◌, any,
}
use ytdlbot.JobStore.Schema.{DeliveryRow, is_owned_by}
use ytdlbot.JobStore.Deliveries.{has_key}

-- The primary key of the table: a job's item has one receipt at most.
abbrev pub IsKeyed : List DeliveryRow → Type 0
IsKeyed [] = Unit
IsKeyed (d ∷ rows) = (any (has_key d.job_id d.item_key) rows ≡ false) × IsKeyed rows

-- The receipt waits for the owner's report.
abbrev pub awaits : String → Option DeliveryRow → Bool
awaits owner none = false
awaits owner (some d) = not d.finalized && is_owned_by d.owner_id owner

abbrev pub bit : Bool → ℕ
bit true = 1
bit false = 0
