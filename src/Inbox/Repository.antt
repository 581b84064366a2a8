-- ===== src/Inbox/Repository.antt =====
-- `InMemoryEventInboxRepository` of
-- services/event-gateway/src/changeops_event_gateway/repository.py. Every method runs under the
-- lock, so it is one step of the state. Times are in microseconds.
use enterprise_change_ops.Base.{
  ℕ, ◌+◌, String, string_eq, pair_eq, Bool, true, false, ◌&&◌, ◌||◌, ltb, ◌==◌, ◌/=◌, if◌then◌else◌,
  Option, none, some, Exec, pure, or_raise, raise_if, modify, ◌>>=◌, ◌>>◌, nat_eq,
}
use enterprise_change_ops.Base.Dict.{Dict, lookup, insert}
use enterprise_change_ops.Contracts.Json.{str, obj, field, end}
use enterprise_change_ops.Contracts.Models.{Timestamp, ChangeEvent}
use enterprise_change_ops.Contracts.Canonical.{Codec, sha256_digest, remove_prefix}
use enterprise_change_ops.Inbox.Models.{
  InboxStatus, pending, publishing, published, publish_failed, inbox_status_eq, EventInboxRecord,
  InboxAcceptance,
}

pub data InboxError : Type 0 where
  event_conflict key_error stale_reservation : InboxError

abbrev pub Store : Type 0
Store = Dict (String × String) EventInboxRecord

abbrev pub Call : Type 0 → Type 0
Call A = Exec Store InboxError A

-- Thirty seconds.
abbrev pub thirty_seconds : ℕ
thirty_seconds = 30_000_000

module _ (codec : Codec) where
  unfoldable pub event_key : ChangeEvent → String
  event_key event = remove_prefix "sha256:" (
      sha256_digest codec (
        obj (
          field "event_id" (str event.event_id) (
            field "source" (str event.source.source_type)
              (field "tenant_id" (str event.tenant_id) end)))))

  abbrev pub new_record : ChangeEvent → String → Timestamp → EventInboxRecord
  new_record event change_id now = record {
    event_key = event_key event;
    tenant_id = event.tenant_id;
    event_id = event.event_id;
    source_type = event.source.source_type;
    change_id = change_id;
    input_hash = sha256_digest codec (codec.dump_event event);
    event = event;
    status = pending;
    publish_attempts = 0;
    processing_attempts = 0;
    pubsub_message_id = none;
    last_error_code = none;
    created_at = now;
    updated_at = now;
    version = 1;
  }

  abbrev accept_known :
      ChangeEvent → String → Timestamp → Option EventInboxRecord → Call InboxAcceptance
  accept_known event change_id now none = do
    modify (insert (event.tenant_id, event_key event) (new_record event change_id now))
    pure (record { accepted = new_record event change_id now; replayed = false })
  accept_known event change_id now (some existing) = do
    raise_if (existing.input_hash /= sha256_digest codec (codec.dump_event event)) event_conflict
    pure (record { accepted = existing; replayed = true })

  unfoldable pub accept : ChangeEvent → String → Timestamp → Call InboxAcceptance
  accept event change_id now s =
      accept_known event change_id now (lookup (event.tenant_id, event_key event) s) s

abbrev pub publishing_again : EventInboxRecord → Timestamp → EventInboxRecord
publishing_again current now = record current {
  status = publishing;
  publish_attempts = current.publish_attempts + 1;
  last_error_code = none;
  updated_at = now;
  version = current.version + 1;
}

-- Another caller has the event: it is published, or its reservation is not thirty seconds old.
-- `updated_at > now - 30 s`, without the subtraction.
abbrev pub is_taken : EventInboxRecord → Timestamp → Bool
is_taken current now =
    current.status == published
    || (current.status == publishing && ltb now (current.updated_at + thirty_seconds))

unfoldable pub reserve_publish : String → String → Timestamp → Call (Option EventInboxRecord)
reserve_publish tenant_id key now = do
  current ← λ s. or_raise (lookup (tenant_id, key) s) key_error s
  if is_taken current now
      then pure none
      else modify (insert (tenant_id, key) (publishing_again current now))
        >> pure (some (publishing_again current now))

-- The arguments of `_finish_publish` behind the key.
pub record Finish : Type 0 where
  pub expected_version : ℕ
  pub status : InboxStatus
  pub message_id : Option String
  pub error_code : Option String
  pub now : Timestamp

abbrev pub ended : EventInboxRecord → Finish → EventInboxRecord
ended current q = record current {
  status = q.status;
  pubsub_message_id = q.message_id;
  last_error_code = q.error_code;
  updated_at = q.now;
  version = current.version + 1;
}

unfoldable pub finish_publish : String → String → Finish → Call EventInboxRecord
finish_publish tenant_id key q = do
  current ← λ s. or_raise (lookup (tenant_id, key) s) key_error s
  raise_if (current.version /= q.expected_version || current.status /= publishing) stale_reservation
  modify (insert (tenant_id, key) (ended current q))
  pure (ended current q)

unfoldable pub mark_published : String → String → ℕ → String → Timestamp → Call EventInboxRecord
mark_published tenant_id key expected_version message_id now =
    finish_publish tenant_id key (record {
      expected_version = expected_version;
      status = published;
      message_id = some message_id;
      error_code = none;
      now = now;
    })

unfoldable pub mark_publish_failed :
    String → String → ℕ → String → Timestamp → Call EventInboxRecord
mark_publish_failed tenant_id key expected_version error_code now =
    finish_publish tenant_id key (record {
      expected_version = expected_version;
      status = publish_failed;
      message_id = none;
      error_code = some error_code;
      now = now;
    })
