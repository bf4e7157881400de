-- ===== src/Tests/Store.antt =====
-- The theorems on the database, at concrete settings.
use ubuntu_insights.Tests.Ingest.{
  app_dir, stored_at, ingest_tree, valid_report, valid_decoders, stored_report, valid,
}
use ubuntu_insights.Base.{Bytes, List, [], codes, false, inr, ltb, refl, some, ℕ, ◌++◌, ◌∷◌, ◌⊎◌}
use ubuntu_insights.Base.Int.{pos}
use ubuntu_insights.Server.Database.{DbPool, Manager, Statement, database_of}
use ubuntu_insights.Server.Database.Delivery.{
  Delivered, Retained, at_upload, process_file-Settled, row_of,
}
use ubuntu_insights.Server.Database.Inserts.{IsSql, IsStore, database_of-IsStore, with_columns}
use ubuntu_insights.Server.Processor.{process_file}
use ubuntu_insights.Server.Processor.Kinds.{current, identifier}
use ubuntu_insights.Server.Processor.Unread.{IsLost, process_file-IsLost}
use ubuntu_insights.System.World.{Cell, Io, Result, Row, World, done, pure}
use ubuntu_insights.Tests.Setting.{world_of, world_of-IsCalm}

-- A pool that keeps each row that it is given.
abbrev keep_row : Statement → List Cell → Io (Unit {0})
keep_row s cells w =
    (done, record w { rows = w.rows ++ ((s.table, with_columns s.columns cells) ∷ []) })

abbrev keeping_pool : DbPool
keeping_pool = record { exec = keep_row; ping = pure tt; close = pure tt; quote = λ b. b }

keeping_pool-IsSql : IsSql keeping_pool
keeping_pool-IsSql = record {
  exec-Inserts = λ table columns cells w e. record {
    tree = refl;
    fault = refl;
    inserted = λ h. refl;
    at_most = inr refl;
  };
}

abbrev open_manager : Manager
open_manager = record { dbpool = some keeping_pool; now = λ w. pos 1000 }

database_of-IsStore_example : IsStore (database_of open_manager) open_manager.now
database_of-IsStore_example = database_of-IsStore keeping_pool keeping_pool-IsSql open_manager refl

abbrev start : World
start = world_of ingest_tree

abbrev settled_run : Result (ℕ × ℕ) × World
settled_run =
    process_file valid_decoders (database_of open_manager) stored_at (codes "linux") false start

abbrev settled_row : Bytes × Row
settled_row =
    row_of (codes "linux") (identifier valid_decoders (codes "id.json") start)
      (open_manager.now (at_upload valid_decoders stored_at start)) (current valid_report)

process_file-Settled_example :
    Delivered stored_at settled_row start settled_run.0 settled_run.1
    ⊎ Retained stored_at (codes "{}") settled_row start settled_run.0 settled_run.1
process_file-Settled_example =
    process_file-Settled valid_decoders (database_of open_manager) (codes "id.json") app_dir
      (codes "linux") (codes "{}") start (current valid_report) open_manager.now
      (database_of-IsStore keeping_pool keeping_pool-IsSql open_manager refl)
      (world_of-IsCalm ingest_tree) stored_report refl valid

-- The first two calls fail.
abbrev unreadable : World
unreadable = record start { fault = λ k. ltb k 2 }

process_file-IsLost_example :
    IsLost stored_at unreadable
      (process_file valid_decoders
        (database_of open_manager)
        stored_at
        (codes "linux")
        false
        unreadable).0
      (process_file valid_decoders
        (database_of open_manager)
        stored_at
        (codes "linux")
        false
        unreadable).1
process_file-IsLost_example =
    process_file-IsLost valid_decoders (database_of open_manager) (codes "id.json") app_dir
      (codes "linux") (codes "{}") false unreadable stored_report refl refl refl
