-- ===== src/Ui.antt =====
-- The dashboard: internal/ui/handler.go. An answer is a status and a fragment of HTML. A fragment has a
-- constructor for each template, with the values that the template is filled with; the text of the
-- templates is left out.
pub mod Keys
pub mod Audits
pub mod Status
use quantum_entropy_service.Common.{ℕ, ℤ, String, List, Bool}
use quantum_entropy_service.Keymanager.Model.{Bytes}
use quantum_entropy_service.Audit.Suites.{SourceResult}

pub record KeyRow : Type 0 where
  pub id : ℕ
  pub alias : String
  pub key_size : ℕ
  pub created_at : ℕ

pub record AuditCard : Type 0 where
  pub source : String
  pub shannon_entropy : String
  pub chi_square : String
  pub pi_estimate : String
  pub compression_ratio : String
  pub repetitions : ℕ

-- The head of a suite's page.
pub record LabMeta : Type 0 where
  pub name : String
  pub sample_size : ℕ
  pub min_note : String
  pub description : String

-- A row of a suite's page: the metric's name, value and reference, and the class and the label of its verdict.
pub record LabRow : Type 0 where
  pub name : String
  pub value : String
  pub reference : String
  pub verdict : String
  pub label : String

pub record LabSource : Type 0 where
  pub source : String
  pub rows : List LabRow

pub data Badge : Type 0 where
  badge_online badge_offline : Badge

-- A queue of the broker, as its management API reports it.
pub record QueueInfo : Type 0 where
  pub name : String
  pub messages : ℕ
  pub ready : ℕ
  pub unacked : ℕ
  pub consumers : ℕ
  pub state : String

pub record QueueRow : Type 0 where
  pub name : String
  pub state_class : Badge
  pub state : String
  pub ready : ℕ
  pub unacked : ℕ
  pub messages : ℕ
  pub consumers : ℕ

pub data Fragment : Type 0 where
  nothing : Fragment
  pool_card : (count pool_max : ℕ) (pct : ℤ) (color kilobytes : String) → Fragment
  empty_vault : Fragment
  keys_table : List KeyRow → Fragment
  key_error : String → Fragment
  export_error : String → Fragment
  private_key : Bytes → Fragment
  warning : String → Fragment
  audit_grid : (sample_size : ℕ) → List AuditCard → Fragment
  lab_grid : (head : LabMeta) (indicative : Bool) → List LabSource → Fragment
  lab_table : (head : LabMeta) (indicative : Bool) → List LabSource → Fragment
  system_status : (quantum rabbitmq : Badge) → Fragment
  no_queues : Fragment
  queues_table : List QueueRow → Fragment

pub record Page : Type 0 where
  pub status : ℕ
  pub fragment : Fragment

abbrev pub page : ℕ → Fragment → Page
page status fragment = record { status = status; fragment = fragment }
