-- ===== src/World.antt =====
-- What the handlers of the frontend (crates/server/src) change: the store, and the objects in the
-- object store, the newest first.
use kubernix.Prelude.{◌∷◌, List, Bytes, Option, none, some}
use kubernix.Keys.{ObjectKey}
use kubernix.MemoryStore.{MemoryStore}

pub record World : Type 0 where
  pub store : MemoryStore
  pub bucket : List (ObjectKey × Bytes)

unfoldable pub with_object : Option (ObjectKey × Bytes) → World → World
with_object none w = w
with_object (some object) w = record w { bucket = object ∷ w.bucket }
