-- ===== src/Images/Spared.antt =====
-- What a pruning of boxerd/image_catalog.py leaves: the file that each template serves, and the files
-- behind the disks of machines.
