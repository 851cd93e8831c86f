-- ===== src/Capture/Writer/Absent.antt =====
-- Captures that were rotated away.
use ostk_cache.Prelude.{
  ℕ, zero, suc, ◌≡◌, refl, ap, ◌∙◌, Bool, true, false, not, List, [], ◌∷◌, Option, some, Text, any,
  all, length, retain, arith, Bool-cases, inl, inr,
}
use ostk_cache.Capture.Rotation.{EntryDir, same_dir}
use ostk_cache.Capture.Rotation.Count.{same_dir_iff}
use ostk_cache.Capture.Writer.{
  CapturedBlob, CaptureMetadata, CaptureMsg, start, outbound, finish, EntryFiles, Writer, Write,
  done, not_found, failed, Io, exists, create_dir, write_in, drop_one, made, write, rotate,
  start_body, outbound_body, finish_body, handle_capture_msg, handle_all,
}

-- A message of another capture, or one that does not start a capture.
abbrev pub starts_other : EntryDir → CaptureMsg → Bool
starts_other dir (start d max_entries body meta) = not (same_dir d dir)
starts_other dir (outbound d payload) = true
starts_other dir (finish d status is_sse headers body elapsed_ms) = true

-- A later message of a capture.
abbrev pub is_of : EntryDir → Io × CaptureMsg → Bool
is_of dir (io, start d max_entries body meta) = false
is_of dir (io, outbound d payload) = same_dir d dir
is_of dir (io, finish d status is_sse headers body elapsed_ms) = same_dir d dir

-- As many messages are counted as dropped.
unfoldable pub dropped : ℕ → Writer → Writer
dropped zero w = w
dropped (suc n) w = drop_one (dropped n w)

exists-write_in :
    (dir d : EntryDir) (f : EntryFiles → EntryFiles) (dirs : List (EntryDir × EntryFiles))
    → exists dir (write_in d f dirs) ≡ exists dir dirs
unfolding exists write_in any
exists-write_in dir d f [] = refl
exists-write_in dir d f ((e, files) ∷ dirs) = ground (arith, exists-write_in dir d f dirs)

exists-create_dir :
    (dir d : EntryDir) (dirs : List (EntryDir × EntryFiles))
    → same_dir d dir ≡ false
    → exists dir (create_dir d dirs) ≡ exists dir dirs
unfolding create_dir exists any
exists-create_dir dir d dirs h = ground arith

exists-retain :
    (dir : EntryDir) (p : EntryDir × EntryFiles → Bool) (dirs : List (EntryDir × EntryFiles))
    → exists dir dirs ≡ false
    → exists dir (retain p dirs) ≡ false
unfolding exists any retain
exists-retain dir p [] h = refl
exists-retain dir p (d ∷ dirs) h = ground (arith, exists-retain dir p dirs)

rotate-absent :
    (dir : EntryDir) (removable : EntryDir → Bool) (max_entries : ℕ) (w : Writer)
    → exists dir w.dirs ≡ false
    → exists dir (rotate removable max_entries w).dirs ≡ false
unfolding rotate
rotate-absent dir removable max_entries w h = exists-retain dir _ w.dirs h

start-absent :
    (wrote : Write) (saved : Bool) (removable : EntryDir → Bool) (dir d : EntryDir)
    (max_entries : ℕ) (body : Text) (meta : CaptureMetadata) (w : Writer)
    → same_dir d dir ≡ false
    → exists dir w.dirs ≡ false
    → exists dir (start_body wrote saved removable d max_entries body meta w).dirs ≡ false
unfolding start_body
start-absent done saved removable dir d max_entries body meta w h a =
    let begun = write d (λ files. record files { request_in = some body }) (made d w) in
    let b : exists dir begun.dirs ≡ false =
      exists-write_in dir d _ (create_dir d w.dirs) ∙ exists-create_dir dir d w.dirs h ∙ a in
    let r = rotate-absent dir removable max_entries begun b in
    elim (Bool-cases saved) [
      | inl e ↦ rw e (exists-write_in dir d _ (rotate removable max_entries begun).dirs ∙ r)
      | inr e ↦ rw e r
    ]
start-absent not_found saved removable dir d max_entries body meta w h a =
    exists-create_dir dir d w.dirs h ∙ a
start-absent failed saved removable dir d max_entries body meta w h a =
    exists-create_dir dir d w.dirs h ∙ a

outbound-absent :
    (wrote : Write) (dir d : EntryDir) (payload : Text) (w : Writer)
    → exists dir w.dirs ≡ false
    → exists dir (outbound_body wrote d payload w).dirs ≡ false
unfolding outbound_body drop_one
outbound-absent done dir d payload w a = exists-write_in dir d _ w.dirs ∙ a
outbound-absent not_found dir d payload w a = a
outbound-absent failed dir d payload w a = a

-- What a start does is the same after a message was dropped.
start-drop :
    (wrote : Write) (saved : Bool) (removable : EntryDir → Bool) (d : EntryDir) (max_entries : ℕ)
    (body : Text) (meta : CaptureMetadata) (w : Writer)
    → start_body wrote saved removable d max_entries body meta (drop_one w)
      ≡ drop_one (start_body wrote saved removable d max_entries body meta w)
unfolding start_body drop_one rotate
start-drop done true removable d max_entries body meta w = refl
start-drop done false removable d max_entries body meta w = refl
start-drop not_found saved removable d max_entries body meta w = refl
start-drop failed saved removable d max_entries body meta w = refl

outbound-drop :
    (wrote : Write) (d : EntryDir) (payload : Text) (w : Writer)
    → outbound_body wrote d payload (drop_one w) ≡ drop_one (outbound_body wrote d payload w)
unfolding outbound_body drop_one
outbound-drop done d payload w = refl
outbound-drop not_found d payload w = refl
outbound-drop failed d payload w = refl

dropped-drop_one : (n : ℕ) (w : Writer) → dropped n (drop_one w) ≡ drop_one (dropped n w)
unfolding dropped
dropped-drop_one zero w = refl
dropped-drop_one (suc n) w = ap drop_one (dropped-drop_one n w)

module _ (sha256_hex : Text → Text) where
  finish-absent :
      (wrote : Write) (saved : Bool) (f : Option CapturedBlob → CaptureMetadata → CaptureMetadata)
      (dir d : EntryDir) (body : Text) (w : Writer)
      → exists dir w.dirs ≡ false
      → exists dir (finish_body sha256_hex wrote saved f d body w).dirs ≡ false
  unfolding finish_body drop_one
  finish-absent done saved f dir d body w a = exists-write_in dir d _ w.dirs ∙ a
  finish-absent not_found saved f dir d body w a = a
  finish-absent failed saved f dir d body w a = exists-write_in dir d _ w.dirs ∙ a

  finish-drop :
      (wrote : Write) (saved : Bool) (f : Option CapturedBlob → CaptureMetadata → CaptureMetadata)
      (d : EntryDir) (body : Text) (w : Writer)
      → finish_body sha256_hex wrote saved f d body (drop_one w)
        ≡ drop_one (finish_body sha256_hex wrote saved f d body w)
  unfolding finish_body drop_one
  finish-drop done saved f d body w = refl
  finish-drop not_found saved f d body w = refl
  finish-drop failed saved f d body w = refl

  handle-absent :
      (dir : EntryDir) (io : Io) (msg : CaptureMsg) (w : Writer)
      → starts_other dir msg ≡ true
      → exists dir w.dirs ≡ false
      → exists dir (handle_capture_msg sha256_hex io msg w).dirs ≡ false
  unfolding handle_capture_msg drop_one
  handle-absent dir io (start d max_entries body meta) w h a = elim (Bool-cases io.mkdir) [
    | inl m ↦ rw m (
        start-absent io.body io.metadata io.removable dir d max_entries body meta w (ground arith)
          a)
    | inr m ↦ rw m a
  ]
  handle-absent dir io (outbound d payload) w h a = elim (Bool-cases (exists d w.dirs)) [
    | inl there ↦ rw there (outbound-absent io.body dir d payload w a)
    | inr gone ↦ rw gone a
  ]
  handle-absent dir io (finish d status is_sse headers body elapsed_ms) w h a =
      elim (Bool-cases (exists d w.dirs)) [
        | inl there ↦ rw there (finish-absent io.body io.metadata _ dir d body w a)
        | inr gone ↦ rw gone a
      ]

  handle-drop :
      (io : Io) (msg : CaptureMsg) (w : Writer)
      → handle_capture_msg sha256_hex io msg (drop_one w)
        ≡ drop_one (handle_capture_msg sha256_hex io msg w)
  unfolding handle_capture_msg drop_one
  handle-drop io (start d max_entries body meta) w = elim (Bool-cases io.mkdir) [
    | inl m ↦ rw m (start-drop io.body io.metadata io.removable d max_entries body meta w)
    | inr m ↦ rw m refl
  ]
  handle-drop io (outbound d payload) w = elim (Bool-cases (exists d w.dirs)) [
    | inl there ↦ rw there (outbound-drop io.body d payload w)
    | inr gone ↦ rw gone refl
  ]
  handle-drop io (finish d status is_sse headers body elapsed_ms) w =
      elim (Bool-cases (exists d w.dirs)) [
        | inl there ↦ rw there (finish-drop io.body io.metadata _ d body w)
        | inr gone ↦ rw gone refl
      ]

  handle_all-drop :
      (msgs : List (Io × CaptureMsg)) (w : Writer)
      → handle_all sha256_hex msgs (drop_one w) ≡ drop_one (handle_all sha256_hex msgs w)
  unfolding handle_all
  handle_all-drop [] w = refl
  handle_all-drop ((io, msg) ∷ msgs) w =
      ap (handle_all sha256_hex msgs) (handle-drop io msg w)
      ∙ handle_all-drop msgs (handle_capture_msg sha256_hex io msg w)

  -- A later message of a capture that is gone is dropped.
  handle-gone :
      (dir : EntryDir) (io : Io) (msg : CaptureMsg) (w : Writer)
      → is_of dir (io, msg) ≡ true
      → exists dir w.dirs ≡ false
      → handle_capture_msg sha256_hex io msg w ≡ drop_one w
  unfolding handle_capture_msg
  handle-gone dir io (start d max_entries body meta) w h a = absurd (ground arith)
  handle-gone dir io (outbound d payload) w h a =
      let e : exists d w.dirs ≡ false = ap (λ x. exists x w.dirs) ((same_dir_iff d dir).0 h) ∙ a in
      rw e refl
  handle-gone dir io (finish d status is_sse headers body elapsed_ms) w h a =
      let e : exists d w.dirs ≡ false = ap (λ x. exists x w.dirs) ((same_dir_iff d dir).0 h) ∙ a in
      rw e refl

  -- A capture whose directory is gone does not come back by any messages, of it or of other captures,
  -- that do not start it, whatever the file system answers and the rotations that they cause delete.
  -- Its own messages among them only count, one each, as dropped: but for the counter the messages of
  -- the other captures alone give the same.
  pub handle_all-absent :
      (dir : EntryDir) (msgs : List (Io × CaptureMsg)) (w : Writer)
      → all (λ m. starts_other dir m.1) msgs ≡ true
      → exists dir w.dirs ≡ false
      → (exists dir (handle_all sha256_hex msgs w).dirs ≡ false)
        × (handle_all sha256_hex msgs w
            ≡ dropped
                (length (retain (is_of dir) msgs))
                (handle_all sha256_hex (retain (λ m. not (is_of dir m)) msgs) w))
  unfolding handle_all all retain dropped
  handle_all-absent dir [] w h a = (a, refl)
  handle_all-absent dir ((io, msg) ∷ msgs) w h a =
      let next = handle_capture_msg sha256_hex io msg w in
      let n = length (retain (is_of dir) msgs) in
      let others = retain (λ m. not (is_of dir m)) msgs in
      let r =
        handle_all-absent dir msgs next (ground arith)
          (handle-absent dir io msg w (ground arith) a) in
      (
        r.0,
        elim (Bool-cases (is_of dir (io, msg))) [
          | inl own ↦ rw own (
              r.1
              ∙ ap (λ x. dropped n (handle_all sha256_hex others x))
                  (handle-gone dir io msg w own a)
              ∙ ap (dropped n) (handle_all-drop others w)
              ∙ dropped-drop_one n (handle_all sha256_hex others w))
          | inr other ↦ rw other r.1
        ],
      )
