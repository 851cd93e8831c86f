-- ===== src/Capture/SelfLoop/Refused.antt =====
-- Which upstream URLs the proxy refuses.
use ostk_cache.Prelude.{
  ℕ, ◌≤◌, ◌≡◌, refl, true, false, ◌&&◌, ◌||◌, [], ◌∷◌, ◌++◌, Text, starts_with, all, arith, ◌==◌,
  if◌then◌else◌, codes, any, ◌⊎◌, ◌≢◌, inl, inr, Bool-cases, ◌∙◌,
}
use ostk_cache.Prelude.Lines.{strip_prefix, trim_end_byte}
use ostk_cache.Prelude.Numbers.{is_digit, max_u16}
use ostk_cache.ProviderPolicy.{before_byte, has_byte, after_last, eq_ignore_ascii_case}
use ostk_cache.Size.{decimal}
use ostk_cache.Size.Decimal.{parse-decimal, all-decimal}
use ostk_cache.Capture.SelfLoop.{
  ok, self_loop, http, https, without_scheme, before_last, host_and_port, is_local, judge,
  check_upstream_self_loop,
}

has_byte-append : (b : ℕ) (s t : Text) → has_byte b (s ++ t) ≡ (has_byte b s || has_byte b t)
unfolding has_byte
has_byte-append b [] t = refl
has_byte-append b (c ∷ s) t = ground (arith, has_byte-append b s t)

-- The last of a byte splits a text.
before_last-split : (b : ℕ) (s t : Text) → has_byte b t ≡ false → before_last b (s ++ b ∷ t) ≡ s
unfolding before_last has_byte
before_last-split b [] t h = ground arith
before_last-split b (c ∷ s) t h =
    ground (arith, before_last-split b s t h, has_byte-append b s (b ∷ t))

after_last-split : (b : ℕ) (s t : Text) → has_byte b t ≡ false → after_last b (s ++ b ∷ t) ≡ t
unfolding after_last has_byte
after_last-split b [] t h = ground arith
after_last-split b (c ∷ s) t h =
    ground (arith, after_last-split b s t h, has_byte-append b s (b ∷ t))

-- A path is empty, or begins with a slash.
abbrev pub IsPath : Text → Type 0
IsPath [] = Unit
IsPath (c ∷ s) = c ≡ b'/'

-- What is trimmed behind a byte.
trim_kept :
    (b c d : ℕ) (s r : Text) → trim_end_byte b s ≡ d ∷ r → trim_end_byte b (c ∷ s) ≡ c ∷ d ∷ r
unfolding trim_end_byte
trim_kept b c d s r h = ground arith

trim_gone :
    (b c : ℕ) (s : Text)
    → trim_end_byte b s ≡ []
    → trim_end_byte b (c ∷ s) ≡ (if c == b then [] else c ∷ [])
unfolding trim_end_byte
trim_gone b c s h = ground arith

trim_cons :
    (c : ℕ) (s t : Text) → trim_end_byte b'/' s ≡ t → c ≡ b'/' → IsPath (trim_end_byte b'/' (c ∷ s))
trim_cons c s [] e h =
    let gone : (c == b'/') ≡ true = ground arith in rw (trim_gone b'/' c s e, gone) tt
trim_cons c s (d ∷ t) e h = rw (trim_kept b'/' c d s t e) h

trim-IsPath : (path : Text) → IsPath path → IsPath (trim_end_byte b'/' path)
unfolding trim_end_byte
trim-IsPath [] p = tt
trim-IsPath (c ∷ s) p = trim_cons c s (trim_end_byte b'/' s) refl p

before-path :
    (s path : Text) → has_byte b'/' s ≡ false → IsPath path → before_byte b'/' (s ++ path) ≡ s
unfolding before_byte has_byte
before-path [] [] h p = refl
before-path [] (c ∷ path) h p = ground arith
before-path (c ∷ s) path h p = ground (arith, before-path s path)

bare_end :
    (c : ℕ) (path r : Text)
    → trim_end_byte b'/' path ≡ r
    → (c == b'/') ≡ false
    → trim_end_byte b'/' (c ∷ path) ≡ c ∷ trim_end_byte b'/' path
bare_end c path [] e h = rw (trim_gone b'/' c path e, h, e) refl
bare_end c path (d ∷ r) e h = rw (trim_kept b'/' c d path r e, e) refl

not_slash : (c : ℕ) (s : Text) → has_byte b'/' (c ∷ s) ≡ false → (c == b'/') ≡ false
unfolding has_byte
not_slash c s h = ground arith

later : (c : ℕ) (s : Text) → has_byte b'/' (c ∷ s) ≡ false → has_byte b'/' s ≡ false
unfolding has_byte
later c s h = ground arith

-- Trimming stops at a text without the byte.
trim_bare :
    (c : ℕ) (t path : Text)
    → has_byte b'/' (c ∷ t) ≡ false
    → trim_end_byte b'/' ((c ∷ t) ++ path) ≡ (c ∷ t) ++ trim_end_byte b'/' path
trim_bare c [] path h = bare_end c path (trim_end_byte b'/' path) refl (not_slash c [] h)
trim_bare c (d ∷ t) path h =
    trim_kept b'/' c d ((d ∷ t) ++ path) (t ++ trim_end_byte b'/' path)
      (trim_bare d t path (later c (d ∷ t) h))

trim-append :
    (s t path : Text) (c : ℕ)
    → has_byte b'/' (c ∷ t) ≡ false
    → trim_end_byte b'/' (s ++ (c ∷ t) ++ path) ≡ s ++ (c ∷ t) ++ trim_end_byte b'/' path
trim-append [] t path c h = trim_bare c t path h
trim-append (x ∷ []) t path c h =
    trim_kept b'/' x c ((c ∷ t) ++ path) (t ++ trim_end_byte b'/' path) (trim_bare c t path h)
trim-append (x ∷ y ∷ s) t path c h =
    trim_kept b'/' x y ((y ∷ s) ++ (c ∷ t) ++ path) (s ++ (c ∷ t) ++ trim_end_byte b'/' path)
      (trim-append (y ∷ s) t path c h)

no_byte_of_digits :
    (b : ℕ) (s : Text) → is_digit b ≡ false → all is_digit s ≡ true → has_byte b s ≡ false
unfolding has_byte all is_digit
no_byte_of_digits b [] h a = refl
no_byte_of_digits b (c ∷ s) h a = ground (arith, no_byte_of_digits b s)

-- The parts of a URL: a scheme, a host, a port and a path.
abbrev pub url_of : Text → Text → ℕ → Text → Text
url_of scheme host port path = scheme ++ (host ++ b':' ∷ decimal port) ++ path

trim_authority :
    (scheme host t path : Text)
    → has_byte b'/' (host ++ b':' ∷ t) ≡ false
    → trim_end_byte b'/' (scheme ++ (host ++ b':' ∷ t) ++ path)
      ≡ scheme ++ (host ++ b':' ∷ t) ++ trim_end_byte b'/' path
trim_authority scheme [] t path h = trim-append scheme t path b':' h
trim_authority scheme (c ∷ host) t path h = trim-append scheme (host ++ b':' ∷ t) path c h

-- The two schemes that are taken off.
pub data Scheme : Type 0 where
  plain secure : Scheme

abbrev pub text_of : Scheme → Text
text_of plain = http
text_of secure = https

without-scheme : (k : Scheme) (s t : Text) → without_scheme (text_of k ++ s ++ t) ≡ s ++ t
unfolding without_scheme strip_prefix starts_with
without-scheme plain s t = refl
without-scheme secure s t = refl

module _ (host : Text) (port : ℕ) (bare : has_byte b'/' host ≡ false) (small : port ≤ max_u16) where
  no_slash : has_byte b'/' (host ++ b':' ∷ decimal port) ≡ false
  unfolding has_byte is_digit
  no_slash = ground (
    arith,
    has_byte-append b'/' host (b':' ∷ decimal port),
    no_byte_of_digits b'/' (decimal port) refl (all-decimal port),
  )

  host_and_port_lem :
      (url : Text) → host_and_port url (host ++ b':' ∷ decimal port) ≡ (host, decimal port)
  unfolding host_and_port is_digit has_byte
  host_and_port_lem url =
      let free : has_byte b':' (decimal port) ≡ false =
        no_byte_of_digits b':' (decimal port) refl (all-decimal port) in
      ground (
        arith,
        has_byte-append b':' host (b':' ∷ decimal port),
        before_last-split b':' host (decimal port) free,
        after_last-split b':' host (decimal port) free,
      )

  judged :
      (url : Text) (listen_port : ℕ)
      → judge url listen_port (host, decimal port)
        ≡ (if (port == listen_port) && is_local host then self_loop url listen_port else ok)
  unfolding judge
  judged url listen_port = ground (arith, parse-decimal max_u16 port (omega arith) small)

  check_url_lem :
      (k : Scheme) (path : Text) (listen_port : ℕ)
      → IsPath path
      → check_upstream_self_loop (url_of (text_of k) host port path) listen_port ≡ (
          if (port == listen_port) && is_local host
          then self_loop (url_of (text_of k) host port path) listen_port
          else ok)
  unfolding check_upstream_self_loop
  check_url_lem k path listen_port is_path =
      rw
        (
          trim_authority (text_of k) host (decimal port) path no_slash,
          without-scheme k (host ++ b':' ∷ decimal port) (trim_end_byte b'/' path),
          before-path (host ++ b':' ∷ decimal port) (trim_end_byte b'/' path) no_slash
              (trim-IsPath path is_path),
          host_and_port_lem (text_of k ++ (host ++ b':' ∷ decimal port) ++ trim_end_byte b'/' path),
        )
        (judged (url_of (text_of k) host port path) listen_port)

-- The six names of a local address that the code has, in any case of their letters.
pub data LocalName : Text → Type 0 where
  loopback : LocalName (codes "127.0.0.1")
  loopback6 : LocalName (codes "::1")
  localhost : LocalName (codes "localhost")
  unspecified : LocalName (codes "0.0.0.0")
  bracket_unspecified : LocalName (codes "[::]")
  bracket_loopback : LocalName (codes "[::1]")

is_local-name :
    (name host : Text)
    → LocalName name
    → eq_ignore_ascii_case name host ≡ true
    → is_local host ≡ true
unfolding is_local any
is_local-name _ host loopback h = ground arith
is_local-name _ host loopback6 h = ground arith
is_local-name _ host localhost h = ground arith
is_local-name _ host unspecified h = ground arith
is_local-name _ host bracket_unspecified h = ground arith
is_local-name _ host bracket_loopback h = ground arith

-- What the check answers to a URL on a port.
abbrev pub Answers : Text → ℕ → ℕ → Type 0
Answers url port listen_port =
    ((port ≡ listen_port) × (check_upstream_self_loop url listen_port ≡ self_loop url listen_port))
    ⊎ ((port ≢ listen_port) × (check_upstream_self_loop url listen_port ≡ ok))

-- A URL of a scheme, a host, a port and a path, where the host is one of the six names that the code
-- has for a local address, in any case of its letters, is refused where the port is the one that the
-- proxy listens on, and is accepted where it is another.
pub check_local_url :
    (k : Scheme) (name host path : Text) (port listen_port : ℕ)
    → LocalName name
    → eq_ignore_ascii_case name host ≡ true
    → has_byte b'/' host ≡ false
    → port ≤ max_u16
    → IsPath path
    → Answers (url_of (text_of k) host port path) port listen_port
check_local_url k name host path port listen_port l e bare small is_path =
    let c = check_url_lem host port bare small k path listen_port is_path in
    let local = is_local-name name host l e in
    elim (Bool-cases (port == listen_port)) [
      | inl h ↦ inl (ground arith, c ∙ (rw (h, local) refl))
      | inr h ↦ inr (ground arith, c ∙ (rw h refl))
    ]
