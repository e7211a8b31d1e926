-- ===== src/Scene/Db.antt =====
-- sceneServer/src-cpp/db: what is kept of a database task on both sides of its channel.
pub mod Message
pub mod PendingTasks
pub mod Ledger
pub mod Retries
