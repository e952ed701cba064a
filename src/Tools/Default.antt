-- ===== src/Tools/Default.antt =====
-- `nc_tools_default` of src/tools/tool.c: the tools' names, in the order of the array.
use tiniclaw.Base.{List, [], ◌∷◌, Bytes, codes}

pub default_names : List Bytes
default_names =
    codes "shell"
    ∷ codes "file_read"
    ∷ codes "file_write"
    ∷ codes "file_edit"
    ∷ codes "file_append"
    ∷ codes "http_request"
    ∷ codes "git"
    ∷ codes "memory_store"
    ∷ codes "memory_recall"
    ∷ codes "memory_forget"
    ∷ codes "browser_open"
    ∷ codes "web_search"
    ∷ codes "web_fetch"
    ∷ codes "image"
    ∷ codes "spawn"
    ∷ codes "delegate"
    ∷ codes "cron_add"
    ∷ codes "cron_list"
    ∷ []
