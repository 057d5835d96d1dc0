-- ===== src/Directory/Calls.antt =====
-- pintos/src/filesys/directory.c: dir_add and dir_remove against a map from names to sectors.
