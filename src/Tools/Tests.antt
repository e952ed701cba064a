-- ===== src/Tools/Tests.antt =====
-- The git, request and fetch tools on concrete arguments.
use tiniclaw.Base.{
  ◌≡◌, refl, ◌⊎◌, true, false, Option, none, some, List, [], ◌∷◌, ◌++◌, Bytes, codes, starts_with,
  str_eq, length,
}
use tiniclaw.Json.{
  Tree, text, object, array, get_item, get_in, as_items, items, from_items, to_items, members,
  from_members, to_members, lookup, lookup_in,
}
use tiniclaw.Tools.Git.{safe_subcommands, git_execute}
use tiniclaw.Security.Policy.Commands.{In}
use tiniclaw.Tools.Git.Reading.{read_word, read_words}
use tiniclaw.Tools.Git.Words.{strings, subcommand, arguments, Refused, git_execute-words}
use tiniclaw.Tools.Http.{HttpRequest, Client, http_execute}
use tiniclaw.Tools.Http.Guarded.{http_execute-guarded}
use tiniclaw.Memory.Toolset.{arg}

abbrev git_args : Option Tree
git_args = some (
    object (
      (codes "subcommand", text (codes "log"))
      ∷ (codes "args", array (text (codes "-n") ∷ text (codes "3 4") ∷ []))
      ∷ []))

abbrev no_process : Bytes → Option (List Bytes)
no_process cmd = none

git_execute-words_example :
    (((git_execute (codes "/w") no_process git_args).1 ≡ []) × Refused git_args)
    ⊎ ((sub : Bytes) × (subcommand git_args ≡ some sub)
        × In sub safe_subcommands
        × (behind_cd : Bytes) × (line : Bytes) × ((git_execute (codes "/w") no_process git_args).1
            ≡ (codes "cd" ++ behind_cd) ∷ [])
        × (read_word behind_cd ≡ some (codes "/w", codes " && git " ++ (sub ++ line)))
        × (read_words (length (arguments git_args)) line
            ≡ some (arguments git_args, codes " 2>&1")))
unfolding get_in get_item as_items items array from_items to_items object members from_members
    to_members lookup lookup_in str_eq strings
git_execute-words_example =
    git_execute-words (codes "/w") no_process git_args (refl, (refl, tt))
      ((refl, (refl, tt)), ((refl, (refl, (refl, tt))), tt))

abbrev http_args : Option Tree
http_args =
    some (object ((codes "url", text (codes "https://a")) ∷ (codes "body", text (codes "b")) ∷ []))

abbrev no_client : Client
no_client r = none

abbrev no_print : Tree → Bytes
no_print v = []

http_execute-guarded_example :
    (((http_execute no_print no_client http_args).0.success ≡ false)
      × ((http_execute no_print no_client http_args).1 ≡ []))
    ⊎ ((r : HttpRequest) × ((http_execute no_print no_client http_args).1 ≡ r ∷ [])
        × (arg http_args (codes "url") ≡ some r.url)
        × (starts_with (codes "http://") r.url ≡ false)
        × (r.follow_location ≡ true)
        × ((r.body ≡ none) ⊎ (str_eq r.method (codes "GET") ≡ false)))
http_execute-guarded_example = http_execute-guarded no_print no_client http_args
