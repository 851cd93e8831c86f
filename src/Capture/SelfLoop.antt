-- ===== src/Capture/SelfLoop.antt =====
-- `check_upstream_self_loop` of crates/ostk-cache-core/src/capture.rs: the proxy refuses to start
-- where its upstream is itself.
pub mod Refused
use ostk_cache.Prelude.{
  ℕ, Bool, true, List, [], ◌∷◌, ◌++◌, Option, none, some, Text, codes, starts_with, any, ◌==◌,
  if◌then◌else◌,
}
use ostk_cache.Prelude.Lines.{strip_prefix, trim_end_byte}
use ostk_cache.Prelude.Numbers.{parse_unsigned, max_u16}
use ostk_cache.ProviderPolicy.{before_byte, has_byte, after_last, eq_ignore_ascii_case}

-- The answer; an error names the two values of its message.
pub data Check : Type 0 where
  ok : Check
  self_loop : Text → ℕ → Check

abbrev pub http : Text
http = codes "http://"

abbrev pub https : Text
https = codes "https://"

unfoldable pub without_scheme : Text → Text
unfolding strip_prefix
without_scheme url = elim (strip_prefix https url) [
  | some s ↦ s
  | none ↦ elim (strip_prefix http url) [ some s ↦ s | none ↦ url ]
]

-- What stands before the last of a byte that is there.
unfoldable pub before_last : ℕ → Text → Text
unfolding has_byte
before_last b [] = []
before_last b (c ∷ s) = let rest = before_last b s in if has_byte b s then c ∷ rest else []

abbrev pub default_port : Text → Text
default_port url = if starts_with https url then codes "443" else codes "80"

unfoldable pub host_and_port : Text → Text → Text × Text
unfolding before_last after_last has_byte
host_and_port url host_port =
    if has_byte b':' host_port
    then (before_last b':' host_port, after_last b':' host_port)
    else (host_port, default_port url)

abbrev pub local_hosts : List Text
local_hosts =
    codes "127.0.0.1"
    ∷ codes "::1"
    ∷ codes "localhost"
    ∷ codes "0.0.0.0"
    ∷ codes "[::]"
    ∷ codes "[::1]"
    ∷ []

unfoldable pub is_local : Text → Bool
unfolding eq_ignore_ascii_case
is_local host = any (λ h. eq_ignore_ascii_case h host) local_hosts

unfoldable pub judge : Text → ℕ → Text × Text → Check
unfolding is_local
judge upstream_url listen_port (host, port_str) = elim (parse_unsigned max_u16 port_str) [
  | none ↦ ok
  | some upstream_port ↦
      if upstream_port == listen_port
      then (if is_local host then self_loop upstream_url listen_port else ok)
      else ok
]

unfoldable pub check_upstream_self_loop : Text → ℕ → Check
unfolding without_scheme host_and_port judge trim_end_byte before_byte
check_upstream_self_loop upstream_url listen_port =
    let url = trim_end_byte b'/' upstream_url in
    judge upstream_url listen_port (host_and_port url (before_byte b'/' (without_scheme url)))
