-- ===== src/Update.antt =====
-- update/: releases, their checksums, and the swap of the installed binaries.
pub mod Files
pub mod Swap
pub mod Release
pub mod Engine
pub mod Worker
