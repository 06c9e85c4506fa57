-- ===== src/Database.antt =====
-- The rows that one transaction sees: a table for each `kind` of the `objects` table of
-- backend/wiseway/storage.py that sorting, the worker, quarantine and dictionaries use, the audit
-- journal and the search outbox.
use wise_way.Prelude.{List}
use wise_way.Storage.{Table}
use wise_way.Records.{
  QueueItem, Attempt, Claim, Batch, QuarantineItem, Return, ReturnKey, Company, Root, Selection,
  Preview, Dictionary, Version, OutboxRow,
}
use wise_way.Audit.{Event}

pub record Db : Type 0 where
  pub queue : Table QueueItem
  pub attempt : Table Attempt
  pub claim : Table Claim
  pub batch : Table Batch
  pub selection : Table Selection
  pub preview : Table Preview
  pub quarantine : Table QuarantineItem
  pub returns : Table Return
  pub return_key : Table ReturnKey
  pub company : Table Company
  pub root : Table Root
  pub dictionary : Table Dictionary
  pub version : Table Version
  pub audit : List Event
  pub outbox : List OutboxRow
