-- ===== src/Scene/Db/Ledger/Held.antt =====
-- A request that has been admitted is not admitted as new again before it is acknowledged
-- (sceneServer/src-cpp/db/taskDelivery.cc).
