-- ===== src/Ls/Print/Links.antt =====
-- `list_single` of src/ls.c on a symbolic link, with the allocator of src/wlmalloc.c.
use rmm.Ls.Options.{Options}
use rmm.Ls.Screen.{Screen}
