-- ===== src/Session/Origin.antt =====
-- The workspace's git origin and the kinds of hook events, src/lib.rs.
use ostk_cache.Prelude.{
  ℕ, ◌-◌, ◌==◌, ◌≡◌, refl, ap, sym, ◌∙◌, false, ◌&&◌, [], ◌∷◌, ◌++◌, Option, none, some, Text,
  codes, eqb, eqb_iff, starts_with, leb, length, take, drop, if◌then◌else◌, ◌>>=◌, All, arith, ◌↔◌,
  inl, inr, Bool-cases, unwrap_or,
}
use ostk_cache.Prelude.Lines.{strip_prefix}
use ostk_cache.Prelude.Utf8.{trim}

unfoldable pub split_once : ℕ → Text → Option (Text × Text)
split_once b [] = none
split_once b (c ∷ s) =
    let rest = split_once b s in
    if c == b then some ([], s) else rest >>= λ (before, after). some (c ∷ before, after)

unfoldable pub strip_suffix : Text → Text → Option Text
unfolding eqb
strip_suffix suffix s =
    let n = length s - length suffix in
    if leb (length suffix) (length s) && eqb (drop n s) suffix then some (take n s) else none

-- `git@host:path` as `https://host/path`.
unfoldable pub as_https : Text → Text
unfolding strip_prefix split_once
as_https s = elim (strip_prefix (codes "git@") s >>= split_once b':') [
  | some (host, path) ↦ codes "https://" ++ (host ++ (b'/' ∷ path))
  | none ↦ s
]

unfoldable pub normalize_git_url : Text → Text
unfolding trim as_https strip_suffix
normalize_git_url raw =
    let normalized = as_https (trim raw) in
    unwrap_or (strip_suffix (codes ".git") normalized) normalized

pub data HookEventKind : Type 0 where
  session_start user_prompt_submit pre_tool_use post_tool_use stop : HookEventKind

unfoldable pub kind_str : HookEventKind → Text
kind_str session_start = codes "SessionStart"
kind_str user_prompt_submit = codes "UserPromptSubmit"
kind_str pre_tool_use = codes "PreToolUse"
kind_str post_tool_use = codes "PostToolUse"
kind_str stop = codes "Stop"

unfoldable pub parse_str : Text → Option HookEventKind
unfolding eqb
parse_str s =
    if eqb s (codes "SessionStart")
    then some session_start
    else if eqb s (codes "UserPromptSubmit")
    then some user_prompt_submit
    else if eqb s (codes "PreToolUse")
    then some pre_tool_use
    else if eqb s (codes "PostToolUse")
    then some post_tool_use
    else if eqb s (codes "Stop")
    then some stop
    else none

print_parse : (k : HookEventKind) → parse_str (kind_str k) ≡ some k
unfolding parse_str kind_str eqb
print_parse session_start = refl
print_parse user_prompt_submit = refl
print_parse pre_tool_use = refl
print_parse post_tool_use = refl
print_parse stop = refl

by_name :
    (s t : Text) (k j : HookEventKind) (rest : Option HookEventKind)
    → kind_str j ≡ t
    → (rest ≡ some k → kind_str k ≡ s)
    → (if eqb s t then some j else rest) ≡ some k
    → kind_str k ≡ s
by_name s t k j rest e later h = elim (Bool-cases (eqb s t)) [
  | inl same ↦
      let chosen : j ≡ k = cc (rw same at h) in
      ap kind_str (sym chosen) ∙ e ∙ sym ((eqb_iff s t).0 same)
  | inr other ↦ later (rw other at h)
]

parse_print : (s : Text) (k : HookEventKind) → parse_str s ≡ some k → kind_str k ≡ s
unfolding parse_str kind_str
parse_print s k h =
    by_name s (codes "SessionStart") k session_start _ refl
      (by_name s (codes "UserPromptSubmit") k user_prompt_submit _ refl (
        by_name s (codes "PreToolUse") k pre_tool_use _ refl (
          by_name s (codes "PostToolUse") k post_tool_use _ refl
            (by_name s (codes "Stop") k stop none refl (λ (e : none ≡ some k). absurd (cc e))))))
      h

-- A text names a kind of event exactly where it is the name that the kind has.
pub parse_iff : (s : Text) (k : HookEventKind) → (parse_str s ≡ some k) ↔ (kind_str k ≡ s)
parse_iff s k = (parse_print s k, (λ e. ap parse_str (sym e) ∙ print_parse k))

split_once-first :
    (b : ℕ) (host path : Text)
    → All (λ c. (c == b) ≡ false) host
    → split_once b (host ++ (b ∷ path)) ≡ some (host, path)
unfolding split_once
split_once-first b [] path h = ground arith
split_once-first b (c ∷ host) path h = rw (h.0, split_once-first b host path h.1) refl

-- Both forms of the address of a repository.
abbrev pub by_ssh : Text → Text → Text
by_ssh host path = codes "git@" ++ (host ++ (b':' ∷ path))

abbrev pub by_https : Text → Text → Text
by_https host path = codes "https://" ++ (host ++ (b'/' ∷ path))

ssh_as_https :
    (host path : Text)
    → All (λ c. (c == b':') ≡ false) host
    → as_https (by_ssh host path) ≡ by_https host path
unfolding as_https strip_prefix starts_with
ssh_as_https host path h = rw (split_once-first b':' host path h, as_https) refl

https_stays : (host path : Text) → as_https (by_https host path) ≡ by_https host path
unfolding as_https strip_prefix starts_with
https_stays host path = refl

-- The two forms of one address, with no blanks around them and no colon in the host, give one origin.
pub forms_agree :
    (host path : Text)
    → All (λ c. (c == b':') ≡ false) host
    → trim (by_ssh host path) ≡ by_ssh host path
    → trim (by_https host path) ≡ by_https host path
    → normalize_git_url (by_ssh host path) ≡ normalize_git_url (by_https host path)
unfolding normalize_git_url
forms_agree host path h a b =
    let e : as_https (trim (by_ssh host path)) ≡ as_https (trim (by_https host path)) =
      ap as_https a ∙ ssh_as_https host path h ∙ sym (ap as_https b ∙ https_stays host path) in
    ap (λ n. unwrap_or (strip_suffix (codes ".git") n) n) e
