-- ===== src/Scene/Aoi.antt =====
-- sceneServer/src-cpp/service/aoi: what a player sees of the entities around.
pub mod Grid
pub mod ViewSet
pub mod ClientView
