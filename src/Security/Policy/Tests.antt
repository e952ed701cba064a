-- ===== src/Security/Policy/Tests.antt =====
-- The policy on concrete commands and paths, and the witnesses of its theorems.
use tiniclaw.Base.{
  ◌≡◌, ◌↔◌, ◌⊎◌, refl, true, false, some, none, [], ◌∷◌, ◌++◌, codes, arith, str_eq, starts_with,
}
use tiniclaw.Security.Policy.{
  low, medium, high, high_risk_cmds, medium_risk_cmds, base_of, first_word, risk_of,
  classify_command, workspace_policy, is_path_allowed, url_is_http_insecure, url_is_valid_https,
}
use tiniclaw.Security.Policy.Commands.{Verdict, classify_command_lem}
use tiniclaw.Security.Policy.Paths.{Below, is_path_allowed_iff}

rm_is_high : classify_command none (some (codes "/bin/rm -rf x")) ≡ high
unfolding classify_command base_of first_word risk_of str_eq
rm_is_high = refl

git_is_medium : classify_command none (some (codes "git status")) ≡ medium
unfolding classify_command base_of first_word risk_of str_eq
git_is_medium = refl

rm_of_a_path_is_low : classify_command none (some (codes "rm -rf /home/user")) ≡ low
unfolding classify_command base_of first_word risk_of str_eq
rm_of_a_path_is_low = refl

sibling_is_refused :
    is_path_allowed (some workspace_policy) (some (codes "/ws")) (some (codes "/ws2/f")) ≡ false
unfolding is_path_allowed starts_with
sibling_is_refused = refl

urls : url_is_http_insecure (some (codes "http://a")) ≡ true
unfolding url_is_http_insecure starts_with
urls = refl

https_urls : url_is_valid_https (some (codes "http://a")) ≡ false
unfolding url_is_valid_https starts_with
https_urls = refl

-- A program with no arguments.
classify_command_lem_example :
    (classify_command none (some (codes "/sbin" ++ b'/' ∷ (codes "shutdown" ++ [])))
      ≡ risk_of (codes "shutdown"))
    × (classify_command none (some (codes "shutdown" ++ [])) ≡ risk_of (codes "shutdown"))
    × Verdict high_risk_cmds medium_risk_cmds (codes "shutdown") (risk_of (codes "shutdown"))
classify_command_lem_example =
    classify_command_lem none (codes "/sbin") (codes "shutdown") [] (omega arith) (omega arith) tt
      (omega arith)

is_path_allowed_iff_example :
    (is_path_allowed (some workspace_policy) (some (codes "/ws")) (some (codes "/ws/f")) ≡ true)
    ↔ ((true ≡ false) ⊎ Below (codes "/ws") (codes "/ws/f"))
is_path_allowed_iff_example =
    is_path_allowed_iff workspace_policy (codes "/ws") (codes "/ws/f") (omega arith)
