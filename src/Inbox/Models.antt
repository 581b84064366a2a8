-- ===== src/Inbox/Models.antt =====
-- services/event-gateway/src/changeops_event_gateway/models.py, as far as the inbox keeps it.
use enterprise_change_ops.Base.{ℕ, String, Bool, Option, Comparable, decided_eq}
use enterprise_change_ops.Contracts.Models.{Timestamp, ChangeEvent}

pub data InboxStatus : Type 0 where
  pending publishing published publish_failed processing processed dead_lettered : InboxStatus

unfoldable pub InboxStatus-discrete : Discrete InboxStatus
InboxStatus-discrete = hlevel

instance abbrev pub inbox_status_eq : Comparable InboxStatus
inbox_status_eq = decided_eq InboxStatus-discrete

pub record EventInboxRecord : Type 0 where
  pub event_key : String
  pub tenant_id : String
  pub event_id : String
  pub source_type : String
  pub change_id : String
  pub input_hash : String
  pub event : ChangeEvent
  pub status : InboxStatus
  pub publish_attempts : ℕ
  pub processing_attempts : ℕ
  pub pubsub_message_id : Option String
  pub last_error_code : Option String
  pub created_at : Timestamp
  pub updated_at : Timestamp
  pub version : ℕ

pub record InboxAcceptance : Type 0 where
  pub accepted : EventInboxRecord
  pub replayed : Bool
