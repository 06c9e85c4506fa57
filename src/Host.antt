-- ===== src/Host.antt =====
-- What a service asks of its surroundings: the clock, and the filesystem adapter of
-- backend/wiseway/filesystem.py. `World` is the state of the disk and of everything else that acts
-- on it, so that two questions in a row may be answered differently. The errors of the adapter are
-- `Error`s.
use wise_way.Prelude.{ℕ, Bool, Option, Text}
use wise_way.Common.{Result, Fingerprint}

pub record Host : Type 1 where
  pub World : Type 0
  pub clock : World → ℕ × World
  pub stat : Text → World → Result (Option Fingerprint) × World
  pub exists : Text → World → Result Bool × World
  pub rename_no_replace : Text → Text → Fingerprint → World → Result (Unit {0}) × World
