-- ===== src/BillingStrip/Tree.antt =====
-- The walk of src/billing_strip.rs over a whole request.
use ostk_cache.Prelude.{
  ℕ, ◌+◌, ◌*◌, ◌≤◌, ◌≡◌, refl, ap, [], Option, none, some, Text, arith, length,
}
use ostk_cache.Json.{
  Value, null, bool, num, literal, str, array, object, Elements, nil, cons, Entries, end, entry,
}
use ostk_cache.BillingStrip.{
  strip_cch_tokens_in_str, strip_str, strip_volatile_billing_tokens, strip_items, strip_fields,
}
use ostk_cache.BillingStrip.Scan.{Describes, strip_tokens-Describes, Strips-length}

-- The bytes of all strings of a value.
unfoldable mutual
  pub text_bytes : Value → ℕ
  text_bytes (str s) = length s
  text_bytes (array xs) = text_bytes_items xs
  text_bytes (object fs) = text_bytes_fields fs
  text_bytes null = 0
  text_bytes (bool b) = 0
  text_bytes (num n) = 0
  text_bytes (literal t) = 0

  pub text_bytes_items : Elements → ℕ
  text_bytes_items nil = 0
  text_bytes_items (cons x xs) = text_bytes x + text_bytes_items xs

  pub text_bytes_fields : Entries → ℕ
  text_bytes_fields end = 0
  text_bytes_fields (entry k v fs) = text_bytes v + text_bytes_fields fs

-- A value with its strings emptied: all but their text.
unfoldable mutual
  pub skeleton : Value → Value
  skeleton (str s) = str []
  skeleton (array xs) = array (skeleton_items xs)
  skeleton (object fs) = object (skeleton_fields fs)
  skeleton null = null
  skeleton (bool b) = bool b
  skeleton (num n) = num n
  skeleton (literal t) = literal t

  pub skeleton_items : Elements → Elements
  skeleton_items nil = nil
  skeleton_items (cons x xs) = cons (skeleton x) (skeleton_items xs)

  pub skeleton_fields : Entries → Entries
  skeleton_fields end = end
  skeleton_fields (entry k v fs) = entry k (skeleton v) (skeleton_fields fs)

record Kept (v w : Value) (n : ℕ) : Type 0 where
  shape : skeleton w ≡ skeleton v
  bytes : text_bytes w + 6 * n ≤ text_bytes v

strip_str-Kept :
    (s : Text) (r : Option (Text × ℕ))
    → Describes s r
    → Kept (str s) (strip_str s r).0 (strip_str s r).1
unfolding strip_str skeleton text_bytes
strip_str-Kept s none d = record { shape = refl; bytes = omega arith }
strip_str-Kept s (some (out, n)) d = record {
  shape = refl;
  bytes = omega (arith, Strips-length d.0);
}

mutual
  unfolding strip_volatile_billing_tokens skeleton text_bytes

  strip-Kept :
      (v : Value) → Kept v (strip_volatile_billing_tokens v).0 (strip_volatile_billing_tokens v).1
  strip-Kept (str s) = strip_str-Kept s (strip_cch_tokens_in_str s) (strip_tokens-Describes s)
  strip-Kept (array xs) =
      let h = strip_items_kept xs in record { shape = ap array h.0; bytes = h.1 }
  strip-Kept (object fs) =
      let h = strip_fields_kept fs in record { shape = ap object h.0; bytes = h.1 }
  strip-Kept null = record { shape = refl; bytes = omega arith }
  strip-Kept (bool b) = record { shape = refl; bytes = omega arith }
  strip-Kept (num n) = record { shape = refl; bytes = omega arith }
  strip-Kept (literal t) = record { shape = refl; bytes = omega arith }

  strip_items_kept :
      (xs : Elements)
      → (skeleton_items (strip_items xs).0 ≡ skeleton_items xs)
        × (text_bytes_items (strip_items xs).0 + 6 * (strip_items xs).1 ≤ text_bytes_items xs)
  strip_items_kept nil = (refl, omega arith)
  strip_items_kept (cons x xs) =
      let h = strip-Kept x in
      let k = strip_items_kept xs in ((λ i. cons (h.shape i) (k.0 i)), omega (arith, h.bytes, k.1))

  strip_fields_kept :
      (fs : Entries)
      → (skeleton_fields (strip_fields fs).0 ≡ skeleton_fields fs)
        × (text_bytes_fields (strip_fields fs).0 + 6 * (strip_fields fs).1 ≤ text_bytes_fields fs)
  strip_fields_kept end = (refl, omega arith)
  strip_fields_kept (entry k v fs) =
      let h = strip-Kept v in
      let j = strip_fields_kept fs in
      ((λ i. entry k (h.shape i) (j.0 i)), omega (arith, h.bytes, j.1))

-- The strip of a whole request changes the text of its strings alone, and each token counted takes
-- at least six bytes from them.
pub strip_tokens_keeps :
    (v : Value)
    → (skeleton (strip_volatile_billing_tokens v).0 ≡ skeleton v)
      × (text_bytes (strip_volatile_billing_tokens v).0 + 6 * (strip_volatile_billing_tokens v).1
          ≤ text_bytes v)
strip_tokens_keeps v = let k = strip-Kept v in (k.shape, k.bytes)
