-- ===== src/Memory/Toolset.antt =====
-- The tools of src/tools/memory_tools.c, over any back end.
pub mod Limits
use tiniclaw.Base.{
  ℕ, zero, suc, ◌+◌, Bool, true, false, Option, none, some, List, [], ◌∷◌, ◌++◌, Bytes, codes,
  str_eq, ltb, if◌then◌else◌,
}
use tiniclaw.Base.Int.{ℤ, pos, negsuc}
use tiniclaw.Base.Print.{print_u64}
use tiniclaw.Json.{Tree, get_in, as_text, as_number}
use tiniclaw.Agent.{Tool, ToolResult}
use tiniclaw.Tools.File.{result_ok, result_err}
use tiniclaw.Memory.{Category, core, daily, conversation, custom, Entry, Memory}

-- An argument of the type string, or the message that it is missing.
unfoldable pub with_text :
    {W : Type 0} → Bytes → Option Bytes → W → (Bytes → ToolResult × W) → ToolResult × W
unfolding result_err
with_text msg none w k = (result_err msg, w)
with_text msg (some s) w k = k s

unfoldable pub category_named : Option Bytes → Category
category_named none = core
category_named (some s) =
    if str_eq s (codes "daily")
    then daily
    else if str_eq s (codes "conversation")
    then conversation
    else if str_eq s (codes "custom")
    then custom (some s)
    else core

unfoldable pub clamp : ℤ → ℕ
clamp (negsuc n) = 1
clamp (pos n) = if ltb n 1 then 1 else if ltb 50 n then 50 else n

-- `(int)limit_j->valuedouble`, by `truncate`; 5 where there is no number.
unfoldable pub limit_of : (ℕ → ℤ) → Option (ℕ × ℤ) → ℕ
unfolding clamp
limit_of truncate none = 5
limit_of truncate (some (w, n)) = clamp (truncate w)

-- The entries, numbered from 1.
unfoldable pub show_entries : ℕ → List Entry → Bytes
show_entries i [] = []
show_entries i (e ∷ es) =
    codes "["
    ++ (print_u64 (i + 1)
        ++ (codes "] "
            ++ (e.key ++ (codes "\n" ++ (e.content ++ (codes "\n\n" ++ show_entries (i + 1) es))))))

unfoldable pub recall_result : Bool × List Entry → ToolResult
unfolding show_entries result_ok
recall_result (false, es) = result_ok (codes "(no matching memories)")
recall_result (true, []) = result_ok (codes "(no matching memories)")
recall_result (true, e ∷ es) = result_ok (show_entries 0 (e ∷ es))

unfoldable pub said : Bool → Bytes → Bytes → ToolResult
unfolding result_ok result_err
said true yes_text no_text = result_ok yes_text
said false yes_text no_text = result_err no_text

unfoldable pub arg : Option Tree → Bytes → Option Bytes
unfolding as_text get_in
arg args key = as_text (get_in args key)

module _ {W : Type 0} where
  unfoldable pub unconfigured : W → ToolResult × W
  unfolding result_err
  unconfigured w = (result_err (codes "memory backend not configured"), w)

  unfoldable pub mem_store_execute : Option (Memory W) → Option Tree → W → ToolResult × W
  unfolding unconfigured with_text arg category_named said
  mem_store_execute none args w = unconfigured w
  mem_store_execute (some mem) args w =
      with_text (codes "missing 'key'") (arg args (codes "key")) w (λ key.
        with_text (codes "missing 'value'") (arg args (codes "value")) w (λ value.
          let (stored, w') =
            mem.store key value (category_named (arg args (codes "category"))) none w in
          (said stored (codes "Stored.") (codes "Store failed"), w')))

  unfoldable pub mem_recall_execute : (ℕ → ℤ) → Option (Memory W) → Option Tree → W → ToolResult × W
  unfolding unconfigured with_text arg limit_of recall_result as_number get_in
  mem_recall_execute truncate none args w = unconfigured w
  mem_recall_execute truncate (some mem) args w =
      with_text (codes "missing 'query'") (arg args (codes "query")) w (λ query. (
        recall_result
            (mem.recall query (limit_of truncate (as_number (get_in args (codes "limit")))) w),
        w,
      ))

  unfoldable pub mem_forget_execute : Option (Memory W) → Option Tree → W → ToolResult × W
  unfolding unconfigured with_text arg said
  mem_forget_execute none args w = unconfigured w
  mem_forget_execute (some mem) args w =
      with_text (codes "missing 'key'") (arg args (codes "key")) w (λ key.
        let (gone, w') = mem.forget key w in
        (said gone (codes "Forgotten.") (codes "Not found or delete failed"), w'))
