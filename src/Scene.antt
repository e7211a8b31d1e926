-- ===== src/Scene.antt =====
-- sceneServer/src-cpp: what a scene server keeps for its players and its map.
pub mod Bag
pub mod Player
pub mod WorkerPending
pub mod Aoi
pub mod Db
