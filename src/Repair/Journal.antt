-- ===== src/Repair/Journal.antt =====
-- The journal of all transactions, the files that they name, and the controller that owns both.
use s3_storage_node.Common.{
  ℕ, String, Bool, true, false, not, ◌&&◌, List, [], ◌∷◌, map, Option, none, some, if◌then◌else◌,
  str_eq, any, select_if, leb,
}
use s3_storage_node.Common.Int.{ℤ, eq_ℤ}
use s3_storage_node.Common.Result.{Result, ok, err}
use s3_storage_node.Common.Effect.{Effect, ◌>>=◌, return, modify}
use s3_storage_node.Repair.Phase.{is_manual}
use s3_storage_node.Repair.Transaction.{Transaction}
use s3_storage_node.Repair.Job.{FileEntry, Files, Job, RepairError, repair_error, Work}

-- The index and the sorted index of a volume, and whether the latter is a symbolic link.
pub record Live : Type 0 where
  pub live_idx : Option FileEntry
  pub live_sdx : Option FileEntry
  pub sdx_is_symlink : Bool

-- The files of one transaction alone.
pub record Artifacts : Type 0 where
  pub candidate : Option FileEntry
  pub installing : Option FileEntry
  pub backup_idx : Option FileEntry
  pub backup_sdx : Option FileEntry

-- The journal's records in the order of their names, the live files by base name, the others by
-- transaction, the clock, and how many identifiers were drawn.
pub record Controller : Type 0 where
  pub journal : List Transaction
  pub live : String → Live
  pub artifacts : String → Artifacts
  pub now : ℕ
  pub drawn : ℕ

abbrev pub Method : Type 0 → Type 0
Method A = Effect RepairError Controller A

abbrev pub set_at : {A : Type 0} → String → A → (String → A) → String → A
set_at key a f k = if str_eq k key then a else f k

abbrev pub files_of : Controller → Transaction → Files
files_of c t = record {
  live_idx = (c.live t.base_name).live_idx;
  live_sdx = (c.live t.base_name).live_sdx;
  candidate = (c.artifacts t.transaction_id).candidate;
  installing = (c.artifacts t.transaction_id).installing;
  backup_idx = (c.artifacts t.transaction_id).backup_idx;
  backup_sdx = (c.artifacts t.transaction_id).backup_sdx;
}

abbrev pub live_from : Files → Live → Live
live_from d l = record l { live_idx = d.live_idx; live_sdx = d.live_sdx }

abbrev pub artifacts_from : Files → Artifacts
artifacts_from d = record {
  candidate = d.candidate;
  installing = d.installing;
  backup_idx = d.backup_idx;
  backup_sdx = d.backup_sdx;
}

-- The order of the names that `sorted` uses, and `uuid.uuid4().hex`.
pub record Names : Type 0 where
  pub before : String → String → Bool
  pub uuid : ℕ → String

abbrev pub same_id : Transaction → Transaction → Bool
same_id t u = str_eq u.transaction_id t.transaction_id

abbrev pub overwrite : Transaction → Transaction → Transaction
overwrite t u = if same_id t u then t else u

abbrev pub insert_by_name : Names → Transaction → List Transaction → List Transaction
insert_by_name names t [] = t ∷ []
insert_by_name names t (u ∷ us) =
    if names.before t.transaction_id u.transaction_id
    then t ∷ u ∷ us
    else u ∷ insert_by_name names t us

-- `RepairJournal.save`: a file for each transaction, replaced atomically.
unfoldable pub saved_in : Names → Transaction → List Transaction → List Transaction
saved_in names t us = if any (same_id t) us then map (overwrite t) us else insert_by_name names t us

abbrev pub save_transaction : Names → Transaction → Method (Unit {0})
save_transaction names t = modify (λ c. record c { journal = saved_in names t c.journal })

abbrev pub handed :
    {A : Type 0} → Result RepairError A → Transaction → Result RepairError (A × Transaction)
handed (ok a) t = ok (a, t)
handed (err e) t = err e

abbrev pub job_for : Transaction → Controller → Job
job_for t c = record { transaction = t; saved = t; files = files_of c t; now = c.now; past = [] }

abbrev pub put_back : Names → Transaction → Job → Controller → Controller
put_back names t j c = record c {
  journal = saved_in names j.saved c.journal;
  live = set_at t.base_name (live_from j.files (c.live t.base_name)) c.live;
  artifacts = set_at t.transaction_id (artifacts_from j.files) c.artifacts;
}

-- The work on one transaction that is as the journal has it, on its files; what it returns is the
-- transaction as it left it.
unfoldable pub on_transaction :
    {A : Type 0} → Names → Transaction → Work A → Method (A × Transaction)
unfolding saved_in
on_transaction names t w c =
    let out = w (job_for t c) in (handed out.0 out.1.transaction, put_back names t out.1 c)

-- `max(…, key=lambda item: float(item.get("updated_at", 0)))`, the first of the latest.
abbrev pub later_of : Transaction → List Transaction → Transaction
later_of t [] = t
later_of t (u ∷ us) = if leb u.updated_at t.updated_at then later_of t us else later_of u us

abbrev pub latest_of : List Transaction → Option Transaction
latest_of [] = none
latest_of (t ∷ ts) = some (later_of t ts)

-- An operator has asked for a retry that was not used yet.
abbrev pub is_authorized : Transaction → Bool
is_authorized t = t.operator_retry_requested && not t.operator_retry_consumed

-- `RepairJournal.request_retry`
unfoldable pub request_retry : Names → ℤ → Method Transaction
unfolding saved_in
request_retry names volume_id c =
    elim (latest_of (
      select_if (λ t. is_manual t.phase) (select_if (λ t. eq_ℤ t.volume_id volume_id) c.journal))) [
        | none ↦ (err (repair_error "no repair failure requiring an operator retry"), c)
        | some t ↦
            let t' : Transaction = record t {
              operator_retry_requested = true;
              operator_retry_consumed = false;
            } in
            (save_transaction names t' >>= λ _. return t') c
      ]
